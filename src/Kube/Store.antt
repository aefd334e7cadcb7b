-- ===== src/Kube/Store.antt =====
-- The objects of one kind in the API server, for the controllers that write and prune them: the calls
-- of the client on them, the loops over these calls, and what is documented of the calls.
pub mod Written
pub mod Pruned
use weft_operator.Prelude.{
  String, Option, none, some, ◌≡◌, ◌↔◌, Bool, true, false, List, [], ◌∷◌, In, if◌then◌else◌,
}
use weft_operator.Kube.{Answer, ok, err, KubeError, not_found, already_exists, other}

-- controllerutil.CreateOrUpdate by namespace and name, and client.Delete, with the key of an object and
-- whether it has a deletion timestamp.
pub record Objects (S O : Type 0) : Type 0 where
  pub namespace : O → String
  pub name : O → String
  pub is_deleting : O → Bool
  pub create_or_update : S → String → String → (O → Answer KubeError O) → Option KubeError × S
  pub delete : S → O → Option KubeError × S

-- A call of CreateOrUpdate that a controller is to make: the name and the mutate function.
pub record Write (O : Type 0) : Type 0 where
  pub name : String
  pub mutate : O → Answer KubeError O

abbrev pub write_name : {O : Type 0} → Write O → String
write_name w = w.name

-- `err != nil && !errors.IsNotFound(err)`
abbrev pub unless_gone : Option KubeError → Option KubeError
unless_gone none = none
unless_gone (some not_found) = none
unless_gone (some already_exists) = some already_exists
unless_gone (some (other m)) = some (other m)

-- A loop goes on with the state, or ends with the error.
abbrev pub or_else :
    {S : Type 0} → Option KubeError × S → (S → Option KubeError × S) → Option KubeError × S
or_else (none, s) f = f s
or_else (some e, s) f = (some e, s)

module _ {S O : Type 0} (objects : Objects S O) where
  -- The writes in their order, up to the first error.
  unfoldable pub write_all : String → List (Write O) → S → Option KubeError × S
  write_all ns [] s = (none, s)
  write_all ns (w ∷ ws) s =
      or_else (objects.create_or_update s ns w.name w.mutate) (write_all ns ws)

  -- A deletion, up to an error that the second argument does not take away.
  unfoldable pub delete_one : (Option KubeError → Option KubeError) → O → S → Option KubeError × S
  delete_one fatal o s = let (e, s') = objects.delete s o in (fatal e, s')

  -- The deletions of the objects that fail the test, in their order, up to the first error.
  unfoldable pub delete_unless :
      (Option KubeError → Option KubeError) → (O → Bool) → List O → S → Option KubeError × S
  delete_unless fatal test [] s = (none, s)
  delete_unless fatal test (o ∷ os) s =
      or_else (if test o then (none, s) else delete_one fatal o s) (delete_unless fatal test os)

  unfoldable pub SameKey : O → String → String → Type 0
  SameKey o ns name = (objects.namespace o ≡ ns) × (objects.name o ≡ name)

  -- A successful CreateOrUpdate stored what the function made of the object of that key, or of an
  -- empty one, and left the other objects.
  pub record IsWritten (stored : S → List O) (ns name : String) (f : O → Answer KubeError O)
      (s s' : S) : Type 0 where
    pub old : O
    pub now : O
    pub old_key : SameKey old ns name
    pub now_key : SameKey now ns name
    pub sends : f old ≡ ok now
    pub present : In now (stored s')
    pub others : (o : O) → ¬ SameKey o ns name → In o (stored s) ↔ In o (stored s')

  -- Reads see the writes before them, and no two objects have one key. A deletion, or one that finds the
  -- object gone, leaves the objects of other keys; under the key there is no object then, or one with a
  -- deletion timestamp, which its finalizers keep.
  pub record IsStore : Type 0 where
    pub stored : S → List O
    pub unique :
        (s : S) (a b : O)
        → In a (stored s)
        → In b (stored s)
        → SameKey a (objects.namespace b) (objects.name b)
        → a ≡ b
    pub written :
        (s s' : S) (ns name : String) (f : O → Answer KubeError O)
        → objects.create_or_update s ns name f ≡ (none, s')
        → IsWritten stored ns name f s s'
    pub deleted :
        (s s' : S) (o x : O) (e : Option KubeError)
        → objects.delete s o ≡ (e, s')
        → unless_gone e ≡ none
        → In x (stored s')
        → objects.is_deleting x ≡ false
        → In x (stored s) × ¬ SameKey x (objects.namespace o) (objects.name o)
    pub others_kept :
        (s s' : S) (o x : O) (e : Option KubeError)
        → objects.delete s o ≡ (e, s')
        → unless_gone e ≡ none
        → In x (stored s)
        → ¬ SameKey x (objects.namespace o) (objects.name o)
        → In x (stored s')
