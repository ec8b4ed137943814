-- ===== src/Buffer/Window.antt =====
-- The buffer of buffer.py holds the end of all that was written.
use dial_pass.Prelude.{
  ℕ, zero, suc, ◌+◌, ◌*◌, ◌-◌, ◌/◌, ◌≤◌, ◌<◌, ◌≡◌, refl, sym, ◌∙◌, List, [], ◌∷◌, ◌++◌,
  append_assoc, append-nil, length, drop, joined, length-append, length-drop, arith,
}
use dial_pass.Buffer.{from_end, RollingBuffer, new_buffer, write, tail}

module _ {ℓ} {A : Type ℓ} where
  drop-drop : (m n : ℕ) (xs : List A) → drop m (drop n xs) ≡ drop (n + m) xs
  drop-drop m zero xs = let e : 0 + m ≡ m = omega arith in rw e
  drop-drop zero (suc n) [] = let e : suc n + 0 ≡ suc n = omega arith in rw e
  drop-drop (suc m) (suc n) [] = let e : suc n + suc m ≡ suc (n + suc m) = omega arith in rw e
  drop-drop m (suc n) (x ∷ xs) =
      let e : suc n + m ≡ suc (n + m) = omega arith in rw e (drop-drop m n xs)

  drop-append_le : (n : ℕ) (xs ys : List A) → n ≤ length xs → drop n (xs ++ ys) ≡ drop n xs ++ ys
  drop-append_le zero xs ys h = refl
  drop-append_le (suc n) [] ys h = absurd (omega arith)
  drop-append_le (suc n) (x ∷ xs) ys h = drop-append_le n xs ys (omega arith)

  drop_twice :
      (n : ℕ) (xs ys : List A)
      → let k = length xs - n in
        let cut = drop k xs ++ ys in
        drop (length cut - n) cut ≡ drop (length (xs ++ ys) - n) (xs ++ ys)
  drop_twice n xs ys =
      let k : ℕ = length xs - n in
      let e : drop k xs ++ ys ≡ drop k (xs ++ ys) = sym (drop-append_le k xs ys (omega arith)) in
      let l : k + (length (drop k (xs ++ ys)) - n) ≡ length (xs ++ ys) - n =
        omega (arith, length-drop k (xs ++ ys), length-append xs ys) in
      rw e (rw (drop-drop (length (drop k (xs ++ ys)) - n) k (xs ++ ys)) (rw l))

module _ {A : Type 0} where
  from_end-eq-drop : (n : ℕ) (xs : List A) → 0 < n → from_end n xs ≡ drop (length xs - n) xs
  unfolding from_end
  from_end-eq-drop n xs pos = ground arith

  -- Cutting what was cut is cutting the whole.
  pub from_end-append :
      (n : ℕ) (xs ys : List A) → from_end n (from_end n xs ++ ys) ≡ from_end n (xs ++ ys)
  from_end-append zero xs ys = unfold from_end in refl
  from_end-append (suc n) xs ys =
      let pos : 0 < suc n = omega arith in
      rw (from_end-eq-drop (suc n) xs pos) (
        rw (from_end-eq-drop (suc n) (drop (length xs - suc n) xs ++ ys) pos)
          (rw (from_end-eq-drop (suc n) (xs ++ ys) pos) (drop_twice (suc n) xs ys)))

  pub length-from_end : (n : ℕ) (xs : List A) → 0 < n → length (from_end n xs) ≤ n
  length-from_end n xs h =
      rw (from_end-eq-drop n xs h) (omega (arith, length-drop (length xs - n) xs))

  -- A shorter end of an end is an end of the whole.
  pub from_end-from_end :
      (m n : ℕ) (xs : List A) → 0 < m → m ≤ n → from_end m (from_end n xs) ≡ from_end m xs
  from_end-from_end m n xs pos le =
      let k : ℕ = length xs - n in
      let l : k + (length (drop k xs) - m) ≡ length xs - m = omega (arith, length-drop k xs) in
      rw (from_end-eq-drop n xs (omega arith)) (
        rw (from_end-eq-drop m (drop k xs) pos)
          (rw (from_end-eq-drop m xs pos) (rw (drop-drop (length (drop k xs) - m) k xs) (rw l))))

  pub from_end-nil : (n : ℕ) → ◌≡◌ {A = List A} [] (from_end n [])
  unfolding from_end
  from_end-nil n = ground arith

-- The buffer after all the chunks were written.
unfoldable pub write_all : {A : Type 0} → List (List A) → RollingBuffer A → RollingBuffer A
write_all [] b = b
write_all (c ∷ cs) b = write_all cs (write c b)

module _ {A : Type 0} where
  write_all-fields :
      (cs : List (List A)) (b : RollingBuffer A) (heard : List A)
      → b.samples ≡ from_end b.capacity heard
      → let b' = write_all cs b in
        (b'.samples ≡ from_end b.capacity (heard ++ joined cs))
        × (b'.capacity ≡ b.capacity)
        × (b'.rate ≡ b.rate)
  unfolding write_all write
  write_all-fields [] b heard e = (rw append-nil e, refl, refl)
  write_all-fields (c ∷ cs) b heard e =
      let next : from_end b.capacity (b.samples ++ c) ≡ from_end b.capacity (heard ++ c) =
        rw e (from_end-append b.capacity heard c) in
      let ih = write_all-fields cs (write c b) (heard ++ c) next in rw (← append_assoc) ih

  -- After any writes to a new buffer it holds the last `seconds * rate` samples of all that was
  -- written, in order, and `tail` gives the last `ms` of them, where these are a sample at least
  -- and no more than the buffer holds.
  pub buffer_holds_end :
      (seconds rate ms : ℕ) (cs : List (List A))
      → 0 < rate * ms / 1000
      → rate * ms / 1000 ≤ seconds * rate
      → let b = write_all cs (new_buffer seconds rate) in
        (b.samples ≡ from_end (seconds * rate) (joined cs))
        × (length b.samples ≤ seconds * rate)
        × (tail ms b ≡ from_end (rate * ms / 1000) (joined cs))
  unfolding new_buffer tail
  buffer_holds_end seconds rate ms cs pos fits =
      let (held, cap, r) =
        write_all-fields cs (new_buffer seconds rate) [] (from_end-nil (seconds * rate)) in
      (
        held,
        rw held (length-from_end (seconds * rate) (joined cs) (omega arith)),
        rw (r, held) (from_end-from_end (rate * ms / 1000) (seconds * rate) (joined cs) pos fits),
      )

  -- A buffer of no capacity cuts nothing off: it keeps all that is ever written.
  pub zero_capacity_keeps_all :
      (rate : ℕ) (cs : List (List A)) → (write_all cs (new_buffer 0 rate)).samples ≡ joined cs
  unfolding new_buffer
  zero_capacity_keeps_all rate cs =
      let e : 0 * rate ≡ 0 = omega arith in
      (write_all-fields cs (new_buffer 0 rate) [] (from_end-nil (0 * rate))).0
      ∙ rw e (unfold from_end in refl)
