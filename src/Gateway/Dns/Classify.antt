-- ===== src/Gateway/Dns/Classify.antt =====
-- The host names of a gateway's listeners: classifyListenerHostnames beside its description.
use weft_operator.Prelude.{
  String, Option, none, some, ◌≡◌, refl, ap, ◌∙◌, inl, inr, Bool, false, not, ◌&&◌, ◌||◌, List, [],
  ◌∷◌, any, ◌==◌, eq_iff, arith, Bool-cases, if◌then◌else◌,
}
use weft_operator.Gateway.{Listener, Gateway}
use weft_operator.Gateway.Dns.{
  HostnameSpec, is_l4_protocol, tag_hostname, add_hostname, classify_from,
  classify_listener_hostnames,
}

-- The tag of a host name in a list of specs, if it is there.
unfoldable pub tag_of : String → List HostnameSpec → Option Bool
tag_of h [] = none
tag_of h (s ∷ ss) = if s.hostname == h then some s.l4 else tag_of h ss

abbrev pub or_tag : Option Bool → Bool → Option Bool
or_tag none l4 = some l4
or_tag (some t) l4 = some (t || l4)

tag_of-tag_hostname :
    (k h : String) (l4 : Bool) (ss : List HostnameSpec)
    → tag_of k (tag_hostname h l4 ss) ≡ (if h == k then or_tag (tag_of k ss) l4 else tag_of k ss)
unfolding tag_of tag_hostname
tag_of-tag_hostname k h l4 [] = ground (arith, eq_iff h k)
tag_of-tag_hostname k h l4 (s ∷ ss) =
    ground
      (arith, eq_iff h k, eq_iff s.hostname h, eq_iff s.hostname k, tag_of-tag_hostname k h l4 ss)

-- Whether a listener has the host name, and the tag that all the listeners with it give.
abbrev pub names_host : String → Option String → Bool
names_host h none = false
names_host h (some k) = k == h && not (k == "")

abbrev pub has_hostname : String → Listener → Bool
has_hostname h l = names_host h l.hostname

-- A TCP or UDP listener that has the host name.
abbrev pub has_l4 : String → Listener → Bool
has_l4 h l = names_host h l.hostname && (l.protocol == "TCP" || l.protocol == "UDP")

tag_of-add_hostname :
    (h : String) (o : Option String) (l4 : Bool) (out : List HostnameSpec)
    → tag_of h (add_hostname o l4 out)
      ≡ (if names_host h o then or_tag (tag_of h out) l4 else tag_of h out)
unfolding add_hostname
tag_of-add_hostname h none l4 out = refl
tag_of-add_hostname h (some k) l4 out =
    ground (arith, eq_iff k "", eq_iff k h, tag_of-tag_hostname h k l4 out)

or_tag_twice : (t : Option Bool) (a b : Bool) → or_tag (or_tag t a) b ≡ or_tag t (a || b)
or_tag_twice none a b = refl
or_tag_twice (some t) a b = ground arith

-- Where no listener has the host name, none has it with a port.
any-has_l4 :
    (h : String) (ls : List Listener) → any (has_hostname h) ls ≡ false → any (has_l4 h) ls ≡ false
any-has_l4 h [] e = refl
any-has_l4 h (l ∷ ls) e = ground (arith, any-has_l4 h ls)

or_tag-false : (t : Option Bool) (b : Bool) → b ≡ false → or_tag (or_tag t b) false ≡ or_tag t b
or_tag-false t b e = or_tag_twice t b false ∙ ground arith

-- What listeners add to a tag.
abbrev tagged : String → Option Bool → List Listener → Option Bool
tagged h t ls = if any (has_hostname h) ls then or_tag t (any (has_l4 h) ls) else t

tagged_step :
    (h : String) (t : Option Bool) (l : Listener) (ls : List Listener)
    → tagged h (if has_hostname h l then or_tag t (is_l4_protocol l.protocol) else t) ls
      ≡ tagged h t (l ∷ ls)
unfolding is_l4_protocol
tagged_step h none l ls = ground (arith, any-has_l4 h ls)
tagged_step h (some t) l ls = ground (arith, any-has_l4 h ls)

tag_of-classify_from :
    (h : String) (ls : List Listener) (out : List HostnameSpec)
    → tag_of h (classify_from out ls) ≡ tagged h (tag_of h out) ls
unfolding classify_from
tag_of-classify_from h [] out = refl
tag_of-classify_from h (l ∷ ls) out =
    tag_of-classify_from h ls (add_hostname l.hostname (is_l4_protocol l.protocol) out)
    ∙ ap (λ t. tagged h t ls) (tag_of-add_hostname h l.hostname (is_l4_protocol l.protocol) out)
    ∙ tagged_step h (tag_of h out) l ls

-- No host name stands twice.
unfoldable pub IsDistinct : List HostnameSpec → Type 0
IsDistinct [] = Unit
IsDistinct (s ∷ ss) = (tag_of s.hostname ss ≡ none) × IsDistinct ss

tag_hostname-IsDistinct :
    (h : String) (l4 : Bool) (ss : List HostnameSpec)
    → IsDistinct ss
    → IsDistinct (tag_hostname h l4 ss)
unfolding IsDistinct tag_hostname tag_of
tag_hostname-IsDistinct h l4 [] d = (refl, tt)
tag_hostname-IsDistinct h l4 (s ∷ ss) d = elim (Bool-cases (s.hostname == h)) [
  | inl e ↦ rw e d
  | inr e ↦
      let fresh : tag_of s.hostname (tag_hostname h l4 ss) ≡ none = ground (
        arith,
        tag_of-tag_hostname s.hostname h l4 ss,
        eq_iff s.hostname h,
        eq_iff h s.hostname,
        d.0,
      ) in
      rw e (fresh, tag_hostname-IsDistinct h l4 ss d.1)
]

add_hostname-IsDistinct :
    (o : Option String) (l4 : Bool) (out : List HostnameSpec)
    → IsDistinct out
    → IsDistinct (add_hostname o l4 out)
unfolding add_hostname
add_hostname-IsDistinct none l4 out d = d
add_hostname-IsDistinct (some h) l4 out d = elim (Bool-cases (h == "")) [
  | inl e ↦ rw e d
  | inr e ↦ rw e (tag_hostname-IsDistinct h l4 out d)
]

classify_from-IsDistinct :
    (ls : List Listener) (out : List HostnameSpec)
    → IsDistinct out
    → IsDistinct (classify_from out ls)
unfolding classify_from
classify_from-IsDistinct [] out d = d
classify_from-IsDistinct (l ∷ ls) out d =
    classify_from-IsDistinct ls _
      (add_hostname-IsDistinct l.hostname (is_l4_protocol l.protocol) out d)

-- The classification lists each host name once, exactly the non-empty ones that a listener has, and
-- tags one as L4 exactly if a TCP or UDP listener is among those that have it.
pub classify_listener_hostnames_lem :
    (gw : Gateway)
    → IsDistinct (classify_listener_hostnames gw)
      × ((h : String)
          → tag_of h (classify_listener_hostnames gw) ≡ (
              if any (has_hostname h) gw.listeners
              then some (any (has_l4 h) gw.listeners)
              else none))
unfolding classify_listener_hostnames IsDistinct tag_of
classify_listener_hostnames_lem gw =
    (classify_from-IsDistinct gw.listeners [] tt, λ h. tag_of-classify_from h gw.listeners [])
