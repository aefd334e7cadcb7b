-- ===== src/Resource.antt =====
-- internal/resource: the helper that ensures one object (resource.go) and the image settings
-- (image.go).
pub mod Image
use weft_operator.Prelude.{Option, none, Bool, true, false, not, ◌&&◌, if◌then◌else◌}

-- The callbacks over the state `S` of the cluster: the tests only read it, and the others return the
-- error, if any, with the state that they leave. `Name` and `Log` are for the log alone.
pub record Options (S E : Type 0) : Type 0 where
  pub exists : S → Bool
  pub should_exist : S → Bool
  pub is_up_to_date : S → Bool
  pub create : S → Option E × S
  pub update : S → Option E × S
  pub delete : S → Option E × S

pub record Outcome (S E : Type 0) : Type 0 where
  pub changed : Bool
  pub error : Option E
  pub state : S

module _ {S E : Type 0} where
  attempted : Option E × S → Outcome S E
  attempted (e, s) = record { changed = true; error = e; state = s }

  unfoldable pub resource : Options S E → S → Outcome S E
  unfolding attempted
  resource opts s =
      let exists = opts.exists s in
      let should = opts.should_exist s in
      let unchanged : Outcome S E = record { changed = false; error = none; state = s } in
      if not exists && should
      then attempted (opts.create s)
      else if exists && should
      then (if opts.is_up_to_date s then unchanged else attempted (opts.update s))
      else if exists && not should
      then attempted (opts.delete s)
      else unchanged
