-- ===== src/Cache/Sweep.antt =====
-- `cleanup`: exactly the expired entries go, and each is counted.
use dns_server_mandiri.Cache.{Entry, Cache, Clock, is_expired, drop_entry, cleanup_loop, cleanup}
use dns_server_mandiri.Prelude.{
  ℕ, ◌+◌, ◌%◌, ◌^◌, ◌≡◌, refl, Option, none, some, [], ◌∷◌, arith, length, Bool-cases, inl, inr,
  ◌∙◌, if◌then◌else◌,
}
use dns_server_mandiri.Prelude.Dict.{
  Dict, lookup, Distinct, Sub, Sub-head, Sub-tail, Sub-delete, lookup-delete, Distinct-delete,
  length-delete,
}
use dns_server_mandiri.Prelude.Text.{Text, eq_iff}

-- An entry, unless it is expired.
abbrev pub if_live : ℕ → Option Entry → Option Entry
if_live now none = none
if_live now (some e) = if is_expired now e then none else some e

-- With `rest` still to visit, what the loop will leave under the key `j`.
abbrev pending : ℕ → Option Entry → Option Entry → Option Entry
pending now none left = left
pending now (some e) left = if is_expired now e then none else left

abbrev cleanup_step : Clock → Text → Entry → Cache → Cache
cleanup_step clock k e c = if is_expired (clock k) e then drop_entry k c else c

module _ (clock : Clock) (k : Text) (e : Entry) (rest : Dict Entry) (c : Cache)
    (gone : lookup k rest ≡ none) where
  pending-step :
      (j : Text)
      → pending (clock j) (lookup j rest) (lookup j (cleanup_step clock k e c).entries)
        ≡ pending (clock j) (lookup j ((k, e) ∷ rest)) (lookup j c.entries)
  unfolding drop_entry lookup
  pending-step j = ground (arith, eq_iff k j, lookup-delete k j c.entries)

  step-visits : Sub ((k, e) ∷ rest) c.entries → Sub rest (cleanup_step clock k e c).entries
  unfolding drop_entry
  step-visits s = elim (Bool-cases (is_expired (clock k) e)) [
    | inl x ↦ rw x (Sub-delete k e rest c.entries gone s)
    | inr x ↦ rw x (Sub-tail k e rest c.entries gone s)
  ]

  step-Distinct : Distinct c.entries → Distinct (cleanup_step clock k e c).entries
  unfolding drop_entry
  step-Distinct d = elim (Bool-cases (is_expired (clock k) e)) [
    | inl x ↦ rw x (Distinct-delete k c.entries d)
    | inr x ↦ rw x d
  ]

  step-counted :
      Distinct c.entries
      → Sub ((k, e) ∷ rest) c.entries
      → ((cleanup_step clock k e c).evictions + length (cleanup_step clock k e c).entries) % 2 ^ 64
        ≡ (c.evictions + length c.entries) % 2 ^ 64
  unfolding drop_entry
  step-counted d s = elim (Bool-cases (is_expired (clock k) e)) [
    | inl x ↦ rw x (omega (arith, length-delete k e c.entries d (Sub-head k e rest c.entries s)))
    | inr x ↦ rw x
  ]

lookup-cleanup_loop :
    (clock : Clock) (j : Text) (rest : Dict Entry) (c : Cache)
    → Distinct rest
    → lookup j (cleanup_loop clock rest c).entries
      ≡ pending (clock j) (lookup j rest) (lookup j c.entries)
unfolding cleanup_loop lookup
lookup-cleanup_loop clock j [] c d = refl
lookup-cleanup_loop clock j ((k, e) ∷ rest) c d =
    lookup-cleanup_loop clock j rest (cleanup_step clock k e c) d.1
    ∙ pending-step clock k e rest c d.0 j

counted-cleanup_loop :
    (clock : Clock) (rest : Dict Entry) (c : Cache)
    → Distinct rest
    → Distinct c.entries
    → Sub rest c.entries
    → ((cleanup_loop clock rest c).evictions + length (cleanup_loop clock rest c).entries) % 2 ^ 64
      ≡ (c.evictions + length c.entries) % 2 ^ 64
unfolding cleanup_loop
counted-cleanup_loop clock [] c dr d s = refl
counted-cleanup_loop clock ((k, e) ∷ rest) c dr d s =
    counted-cleanup_loop clock rest (cleanup_step clock k e c) dr.1
      (step-Distinct clock k e rest c dr.0 d) (step-visits clock k e rest c dr.0 s)
    ∙ step-counted clock k e rest c dr.0 d s

-- `cleanup` removes exactly the entries that are expired when the loop comes to them and keeps the
-- others as they are, and the counter of evictions grows by the number of entries removed (modulo 2
-- ^ 64).
pub cleanup_lem :
    (clock : Clock) (c : Cache)
    → Distinct c.entries
    → ((j : Text) → lookup j (cleanup clock c).entries ≡ if_live (clock j) (lookup j c.entries))
      × (((cleanup clock c).evictions + length (cleanup clock c).entries) % 2 ^ 64
          ≡ (c.evictions + length c.entries) % 2 ^ 64)
unfolding cleanup
cleanup_lem clock c d = (
  λ j. lookup-cleanup_loop clock j c.entries c d ∙ same j,
  counted-cleanup_loop clock c.entries c d d (λ k v h. h),
)
  where
    same :
        (j : Text)
        → pending (clock j) (lookup j c.entries) (lookup j c.entries)
          ≡ if_live (clock j) (lookup j c.entries)
    same j = ground arith
