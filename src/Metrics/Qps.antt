-- ===== src/Metrics/Qps.antt =====
-- The history of `trackQPS`.
use dns_server_mandiri.Metrics.{Metrics, QpsPoint, tail, track_qps}
use dns_server_mandiri.Prelude.{
  ℕ, suc, ◌+◌, ◌-◌, ◌%◌, ◌^◌, ◌≤◌, ◌≡◌, refl, List, [], ◌∷◌, ◌++◌, length, take, arith, ltb,
  Bool-cases, inl, inr, ◌∙◌, length-append, ap, sym, take_of_length-le,
}
use mathlib.Core.List.{reverse, reverse-append}

module _ {ℓ} {A : Type ℓ} where
  length-reverse : (xs : List A) → length (reverse xs) ≡ length xs
  length-reverse (x ∷ rest) =
      ap length (reverse-append (x ∷ []) rest)
      ∙ omega (arith, length-reverse rest, length-append (reverse rest) (x ∷ []))
  length-reverse [] = refl

  length-tail : (xs : List A) → length (tail xs) ≡ length xs - 1
  length-tail [] = omega arith
  length-tail (x ∷ xs) = omega arith

  take-append : (xs ys : List A) → take (length xs) (xs ++ ys) ≡ xs
  take-append [] ys = refl
  take-append (x ∷ xs) ys = ap (◌∷◌ x) (take-append xs ys)

  -- To drop the oldest is to keep all but the last of the newest.
  reverse-tail : (n : ℕ) (xs : List A) → length xs ≡ suc n → reverse (tail xs) ≡ take n (reverse xs)
  reverse-tail n [] h = absurd (omega arith)
  reverse-tail n (x ∷ xs) h =
      let e : length (reverse xs) ≡ n = omega (arith, length-reverse xs) in
      sym (
        ap (take n) (reverse-append (x ∷ []) xs)
        ∙ (ap (λ k. take k (reverse xs ++ (x ∷ []))) (sym e) ∙ take-append (reverse xs) (x ∷ [])))

abbrev pub new_point : ℕ → Metrics → QpsPoint
new_point now m = record {
  timestamp = now;
  queries = (m.total_queries + 2 ^ 64 - m.last_qps_count) % 2 ^ 64;
  elapsed = now - m.last_qps_time;
}

-- A tick adds its point and keeps the 360 newest, so the history never grows beyond them.
pub track_qps_lem :
    (now : ℕ) (m : Metrics)
    → length m.qps_history ≤ 360
    → (reverse (track_qps now m).qps_history ≡ take 360 (new_point now m ∷ reverse m.qps_history))
      × (length (track_qps now m).qps_history ≤ 360)
unfolding track_qps
track_qps_lem now m h =
    let p = new_point now m in
    let long = m.qps_history ++ (p ∷ []) in
    let len : length long ≡ length m.qps_history + 1 = length-append m.qps_history (p ∷ []) in
    let back : reverse long ≡ p ∷ reverse m.qps_history = reverse-append m.qps_history (p ∷ []) in
    elim (Bool-cases (ltb 360 (length long))) [
      | inl full ↦ rw full (
        reverse-tail 360 long (ground arith) ∙ ap (take 360) back,
        ground (arith, length-tail long),
      )
      | inr room ↦ rw room (
        back
            ∙ sym (
                take_of_length-le 360 (p ∷ reverse m.qps_history)
                  (ground (arith, length-reverse m.qps_history))),
        ground arith,
      )
    ]
