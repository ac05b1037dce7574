-- ===== src/Pack/Deps/State.antt =====
-- The invariant of topoSort's loop in internal/pack/deps.go.
use cube_idp.Base.{
  append_assoc, ℕ, suc, ◌≡◌, ◌∙◌, true, false, not, ◌&&◌, ◌||◌, Option, none, some, List, [], ◌∷◌,
  ◌++◌, arith, length, contains, contains-nil, contains-append, IsNodup, IsNodup-snoc, Dict, find,
  delete, find-delete, if◌then◌else◌, Text, ◌==◌, ==_iff,
}
use cube_idp.Pack.Deps.{slice_at, pending_counts, ready_instance, release}
use cube_idp.Pack.Deps.Counts.{
  open_count, open_count-snoc, open_count-zero, find-pending_counts, find-release,
  ready_instance-some, count_known_self, open_count-nil,
}

-- Every dependency of `id` that is an instance of the setup stands in `placed`.
abbrev pub IsMet : (ids : List Text) → Dict (List Text) → (placed : List Text) → Text → Type 0
IsMet ids deps placed id =
    (dep : Text)
    → contains (slice_at deps id) dep ≡ true
    → contains ids dep ≡ true
    → contains placed dep ≡ true

-- Each instance of the list stands after its dependencies, those in `placed` being done.
abbrev pub IsOrdered : (ids : List Text) → Dict (List Text) → (placed order : List Text) → Type 0
IsOrdered ids deps placed [] = Unit
IsOrdered ids deps placed (id ∷ order) =
    IsMet ids deps placed id × IsOrdered ids deps (placed ++ id ∷ []) order

pub IsOrdered-snoc :
    (ids : List Text) (deps : Dict (List Text)) (placed order : List Text) (id : Text)
    → IsOrdered ids deps placed order
    → IsMet ids deps (placed ++ order) id
    → IsOrdered ids deps placed (order ++ id ∷ [])
IsOrdered-snoc ids deps placed [] id h m =
    ((λ dep a b. ground (arith, m dep a b, contains-append placed [] dep, contains-nil dep)), tt)
IsOrdered-snoc ids deps placed (x ∷ order) id h m =
    (h.0, IsOrdered-snoc ids deps (placed ++ x ∷ []) order id h.1 (rw append_assoc m))

-- The entry that an instance has while `order` is placed.
abbrev pub entry : (ids : List Text) → Dict (List Text) → (order : List Text) → Text → Option ℕ
entry ids deps order id =
    if contains ids id && not (contains order id)
    then some (open_count ids order (slice_at deps id))
    else none

pub record IsState (ids : List Text) (deps : Dict (List Text)) (left : ℕ) (remaining : Dict ℕ)
    (order : List Text) : Type 0 where
  pub counts : (id : Text) → find remaining id ≡ entry ids deps order id
  pub distinct : IsNodup order
  pub known : (id : Text) → contains order id ≡ true → contains ids id ≡ true
  pub left_open : open_count ids order ids ≡ left
  pub ordered : IsOrdered ids deps [] order

module _ (ids : List Text) (deps : Dict (List Text)) (n : IsNodup ids)
    (dn : (id : Text) → IsNodup (slice_at deps id)) where
  pub IsState-initial : IsState ids deps (length ids) (pending_counts ids deps) []
  unfolding contains
  IsState-initial = record {
    counts = λ id. ground (arith, find-pending_counts ids deps id);
    distinct = tt;
    known = λ id h. cc;
    left_open = open_count-nil ids ids ∙ count_known_self ids;
    ordered = tt;
  }

  module _ {left : ℕ} {remaining : Dict ℕ} {order : List Text} {next : Text}
      (s : IsState ids deps (suc left) remaining order)
      (r : ready_instance ids remaining ≡ some next) where
    next_known : contains ids next ≡ true
    next_known = (ready_instance-some ids remaining next r).0

    next_new : contains order next ≡ false
    next_new = ground (arith, s.counts next, ready_instance-some ids remaining next r)

    next-IsMet : IsMet ids deps order next
    next-IsMet dep m k =
        open_count-zero ids order (slice_at deps next) dep
          (ground (arith, s.counts next, ready_instance-some ids remaining next r)) m k

    contains-placed :
        (id : Text) → contains (order ++ next ∷ []) id ≡ (contains order id || (next == id))
    unfolding contains
    contains-placed id = ground (arith, contains-append order (next ∷ []) id)

    round-counts :
        (id : Text)
        → find (release ids deps next (delete remaining next)) id
          ≡ entry ids deps (order ++ next ∷ []) id
    round-counts id = ground (
      arith,
      find-release ids deps next (delete remaining next) id n,
      find-delete remaining next id,
      s.counts id,
      contains-placed id,
      ==_iff next id,
      open_count-snoc ids order (slice_at deps id) next (dn id) next_known next_new,
    )

    pub IsState-round :
        IsState ids deps left (release ids deps next (delete remaining next)) (order ++ next ∷ [])
    IsState-round = record {
      counts = round-counts;
      distinct = IsNodup-snoc order next s.distinct next_new;
      known = λ id h. ground (arith, contains-placed id, ==_iff next id, next_known, s.known id);
      left_open = omega (
        arith,
        s.left_open,
        rw next_known at (open_count-snoc ids order ids next n next_known next_new),
      );
      ordered = IsOrdered-snoc ids deps [] order next s.ordered next-IsMet;
    }
