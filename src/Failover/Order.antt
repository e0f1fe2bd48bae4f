-- ===== src/Failover/Order.antt =====
-- The order in which the upstreams are tried.
use dns_server_mandiri.Failover.{Failover, is_healthy, order_loop, get_ordered_upstreams}
use dns_server_mandiri.Prelude.Text.{Text}
use dns_server_mandiri.Prelude.{
  ◌≡◌, inl, inr, Bool, true, not, List, [], ◌∷◌, ◌++◌, if◌then◌else◌, Bool-cases, sym, ap, ◌∙◌,
}
use mathlib.Core.List.{Memᴰ, append_assoc, append-nil}
use mathlib.Core.List.Memᴰ.{head, tail, append_left, append_right, append_cases}

-- The elements that pass a test, in their order.
abbrev pub keep : (Text → Bool) → List Text → List Text
keep p [] = []
keep p (x ∷ xs) = if p x then x ∷ keep p xs else keep p xs

order_loop_lem :
    (f : Failover) (ups xs ys : List Text)
    → order_loop f ups xs ys
      ≡ (xs ++ keep (is_healthy f) ups) ++ (ys ++ keep (λ us. not (is_healthy f us)) ups)
unfolding order_loop
order_loop_lem f [] xs ys = cc (append-nil xs, append-nil ys)
order_loop_lem f (us ∷ rest) xs ys = elim (Bool-cases (is_healthy f us)) [
  | inl up ↦ rw up (
      order_loop_lem f rest (xs ++ (us ∷ [])) ys
      ∙ cc (append_assoc xs (us ∷ []) (keep (is_healthy f) rest)))
  | inr down ↦ rw down (
      order_loop_lem f rest xs (ys ++ (us ∷ []))
      ∙ cc (append_assoc ys (us ∷ []) (keep (λ u. not (is_healthy f u)) rest)))
]

-- The upstreams that are tried are the healthy ones in their configured order, then the others in
-- theirs.
pub get_ordered_upstreams_lem :
    (f : Failover)
    → get_ordered_upstreams f
      ≡ keep (is_healthy f) f.cfg.upstreams ++ keep (λ us. not (is_healthy f us)) f.cfg.upstreams
unfolding get_ordered_upstreams
get_ordered_upstreams_lem f = order_loop_lem f f.cfg.upstreams [] []

keep-mem :
    (p : Text → Bool) (xs : List Text) (x : Text) → p x ≡ true → Memᴰ x xs → Memᴰ x (keep p xs)
keep-mem p [] x h i = elim i [ ]
keep-mem p (y ∷ ys) x h (head e) = rw (ap p (sym e) ∙ h) (head e)
keep-mem p (y ∷ ys) x h (tail i) = elim (Bool-cases (p y)) [
  | inl e ↦ rw e (tail (keep-mem p ys x h i))
  | inr e ↦ rw e (keep-mem p ys x h i)
]

under :
    {x y : Text} {xs ys : List Text} → (Memᴰ x xs → Memᴰ x ys) → Memᴰ x (y ∷ xs) → Memᴰ x (y ∷ ys)
under f (head e) = head e
under f (tail i) = tail (f i)

mem_of-keep : (p : Text → Bool) (xs : List Text) (x : Text) → Memᴰ x (keep p xs) → Memᴰ x xs
mem_of-keep p [] x i = i
mem_of-keep p (y ∷ ys) x i = elim (Bool-cases (p y)) [
  | inl e ↦ under (mem_of-keep p ys x) (rw e at i)
  | inr e ↦ tail (mem_of-keep p ys x (rw e at i))
]

-- The upstreams that are tried are those that are configured.
pub mem-get_ordered_upstreams :
    (f : Failover) (us : Text) → Memᴰ us f.cfg.upstreams → Memᴰ us (get_ordered_upstreams f)
mem-get_ordered_upstreams f us i =
    rw (get_ordered_upstreams_lem f) (elim (Bool-cases (is_healthy f us)) [
      | inl e ↦ append_left _ (keep-mem (is_healthy f) f.cfg.upstreams us e i)
      | inr e ↦
          append_right (keep (is_healthy f) f.cfg.upstreams)
            (keep-mem (λ u. not (is_healthy f u)) f.cfg.upstreams us (ap not e) i)
    ])

pub mem_of-get_ordered_upstreams :
    (f : Failover) (us : Text) → Memᴰ us (get_ordered_upstreams f) → Memᴰ us f.cfg.upstreams
mem_of-get_ordered_upstreams f us i =
    elim (append_cases (keep (is_healthy f) f.cfg.upstreams)
      (rw (get_ordered_upstreams_lem f) at i)) [
        | inl j ↦ mem_of-keep (is_healthy f) f.cfg.upstreams us j
        | inr j ↦ mem_of-keep (λ u. not (is_healthy f u)) f.cfg.upstreams us j
      ]
