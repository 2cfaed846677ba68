-- ===== src/Layout/Writes.antt =====
-- Writers and the readers that read their bytes back, put together step by step.
use anonymous_communication.Base.{
  ℕ, zero, suc, ◌+◌, ◌/◌, ◌^◌, ◌<◌, ◌≤◌, List, [], ◌∷◌, ◌++◌, ok, ◌≡◌, refl, arith, ap, length,
  length-append, append_assoc, subst,
}
use native.Mathlib.Nat.{pow-suc}
use anonymous_communication.Serial.{Reader, ◌>>=◌, return}
use anonymous_communication.Layout.{
  Writer, ◌▷◌, put, word_bytes, read_byte, read_word, read_bytes, pass,
}

-- With `n` cells left or more, `w` fills just `n` of them, and `r` reads `a` back from these,
-- whatever follows.
pub record Writes {A : Type 0} (w : Writer) (n : ℕ) (r : Reader A) (a : A) : Type 0 where
  pub fills :
      (cells : List ℕ)
      → n ≤ length cells
      → (bytes : List ℕ) × (rest : List ℕ) × (w cells ≡ ok (bytes, rest))
        × (length bytes ≡ n)
        × (length rest + n ≡ length cells)
        × ((tail : List ℕ) → r (bytes ++ tail) ≡ ok (a, tail))

module _ {A B : Type 0} where
  pub sequence-Writes :
      {v w : Writer} {n m : ℕ} {r : Reader A} {a : A} (next : A → Reader B) {b : B}
      → Writes v n r a
      → Writes w m (next a) b
      → Writes (v ▷ w) (n + m) (r >>= next) b
  sequence-Writes {n = n} {m = m} {a = a} next first second = record {
    fills = λ cells h.
        let (xs, mid, e, lx, lm, back) = first.fills cells (omega arith) in
        let (ys, rest, e', ly, lr, back') = second.fills mid (omega arith) in
        (
          xs ++ ys,
          rest,
          rw (◌▷◌, ◌>>=◌, e, e') refl,
          omega (arith, length-append xs ys),
          omega arith,
          λ tail. rw (append_assoc xs ys tail, ◌>>=◌, back (ys ++ tail)) (back' tail),
        );
  }

  pub done-Writes :
      {w : Writer} {n : ℕ} {r : Reader A} {a : A} (f : A → B)
      → Writes w n r a
      → Writes w n (r >>= λ x. return (f x)) (f a)
  done-Writes f first = record {
    fills = λ cells h.
        let (xs, rest, e, l, lr, back) = first.fills cells h in
        (xs, rest, e, l, lr, λ tail. rw (◌>>=◌, back tail) refl);
  }

pub nothing-Writes : {A : Type 0} (a : A) → Writes (return []) 0 (return a) a
nothing-Writes a = record { fills = λ cells h. ([], cells, refl, refl, omega arith, λ tail. refl) }

pub byte-Writes : (b : ℕ) → Writes (put (b ∷ [])) 1 read_byte b
unfolding put read_byte
byte-Writes b = record { fills = fill }
  where
    fill :
        (cells : List ℕ)
        → 1 ≤ length cells
        → (bytes : List ℕ) × (rest : List ℕ) × (put (b ∷ []) cells ≡ ok (bytes, rest))
          × (length bytes ≡ 1)
          × (length rest + 1 ≡ length cells)
          × ((tail : List ℕ) → read_byte (bytes ++ tail) ≡ ok (b, tail))
    fill [] h = absurd (omega arith)
    fill (cell ∷ cells) h = (b ∷ [], cells, refl, refl, omega arith, λ tail. refl)

-- One number that fits the size.
pub word_back :
    (left n : ℕ) (tail : List ℕ)
    → n < 256 ^ left
    → read_word left (word_bytes left n ++ tail) ≡ ok (n, tail)
unfolding read_word word_bytes read_byte
word_back zero n tail h = ap (λ (t : ℕ). ok (t, tail)) (omega arith)
word_back (suc left) n tail h =
    rw (◌>>=◌, word_back left (n / 2 ^ 8) tail (omega (arith, pow-suc 256 left)))
      (ap (λ (t : ℕ). ok (t, tail)) (omega arith))

length-word_bytes : (left n : ℕ) → length (word_bytes left n) ≡ left
unfolding word_bytes
length-word_bytes zero n = refl
length-word_bytes (suc left) n = ap suc (length-word_bytes left (n / 2 ^ 8))

pub bytes_back : (bs tail : List ℕ) → read_bytes (length bs) (bs ++ tail) ≡ ok (bs, tail)
unfolding read_bytes read_byte
bytes_back [] tail = refl
bytes_back (b ∷ bs) tail = rw (◌>>=◌, bytes_back bs tail) refl

-- The bytes of a list that is put.
put_fills :
    (bs cells : List ℕ)
    → length bs ≤ length cells
    → (rest : List ℕ) × (put bs cells ≡ ok (bs, rest)) × (length rest + length bs ≡ length cells)
unfolding put
put_fills [] cells h = (cells, refl, omega arith)
put_fills (b ∷ bs) [] h = absurd (omega arith)
put_fills (b ∷ bs) (cell ∷ cells) h =
    let (rest, e, l) = put_fills bs cells (omega arith) in (rest, rw (◌>>=◌, e) refl, omega arith)

-- The cells that stay.
keep_fills :
    (n : ℕ) (cells : List ℕ)
    → n ≤ length cells
    → (bs : List ℕ) × (rest : List ℕ) × (read_bytes n cells ≡ ok (bs, rest))
      × (length bs ≡ n)
      × (length rest + n ≡ length cells)
unfolding read_bytes read_byte
keep_fills zero cells h = ([], cells, refl, refl, omega arith)
keep_fills (suc n) [] h = absurd (omega arith)
keep_fills (suc n) (cell ∷ cells) h =
    let (bs, rest, e, l, lr) = keep_fills n cells (omega arith) in
    (cell ∷ bs, rest, rw (◌>>=◌, e) refl, ap suc l, omega arith)

pub word-Writes : (n : ℕ) → n < 2 ^ 64 → Writes (put (word_bytes 8 n)) 8 (read_word 8) n
word-Writes n h = record {
  fills = λ cells k.
      let l = length-word_bytes 8 n in
      let (rest, e, lr) = put_fills (word_bytes 8 n) cells (omega arith) in
      (word_bytes 8 n, rest, e, l, omega arith, λ tail. word_back 8 n tail (omega arith));
}

-- The array of a key.
pub bytes-Writes : (n : ℕ) (bs : List ℕ) → length bs ≡ n → Writes (put bs) n (read_bytes n) bs
bytes-Writes n bs h = record {
  fills = λ cells k.
      let (rest, e, lr) = put_fills bs cells (omega arith) in
      (
        bs,
        rest,
        e,
        h,
        omega arith,
        λ tail. subst (λ m. read_bytes m (bs ++ tail) ≡ ok (bs, tail)) h (bytes_back bs tail),
      );
}

-- Bytes that are passed over in reading, whether they stay or are put.
pub pass-Writes : (n : ℕ) → Writes (read_bytes n) n (pass n) tt
unfolding pass
pass-Writes n = record {
  fills = λ cells k.
      let (bs, rest, e, l, lr) = keep_fills n cells k in
      (
        bs,
        rest,
        e,
        l,
        lr,
        λ tail.
            rw
              (◌>>=◌, subst (λ m. read_bytes m (bs ++ tail) ≡ ok (bs, tail)) l (bytes_back bs tail))
              refl,
      );
}

-- A number in front, which is read or passed over.
pub tagged :
    {A : Type 0} {w : Writer} {m : ℕ} {r : Reader A} {a : A} (n : ℕ) (cells : List ℕ)
    → n < 2 ^ 64
    → Writes w m r a
    → 8 + m ≤ length cells
    → (bytes : List ℕ) × (rest : List ℕ) × (behind : List ℕ) × ((put (word_bytes 8 n) ▷ w) cells
        ≡ ok (bytes, rest))
      × (length bytes ≡ 8 + m)
      × (length rest + (8 + m) ≡ length cells)
      × (read_word 8 bytes ≡ ok (n, behind))
      × ((tail : List ℕ) → (pass 8 >>= λ _. r) (bytes ++ tail) ≡ ok (a, tail))
unfolding pass
tagged n cells small others h =
    let l = length-word_bytes 8 n in
    let (mid, e, lm) = put_fills (word_bytes 8 n) cells (omega arith) in
    let (ys, rest, e', ly, lr, back) = others.fills mid (omega arith) in
    (
      word_bytes 8 n ++ ys,
      rest,
      ys,
      rw (◌▷◌, ◌>>=◌, e, e') refl,
      omega (arith, length-append (word_bytes 8 n) ys),
      omega arith,
      word_back 8 n ys (omega arith),
      λ tail.
          rw
            (
              append_assoc (word_bytes 8 n) ys tail,
              ◌>>=◌,
              subst
                  (λ k.
                    read_bytes k (word_bytes 8 n ++ (ys ++ tail)) ≡ ok (word_bytes 8 n, ys ++ tail))
                  l (bytes_back (word_bytes 8 n) (ys ++ tail)),
            )
            (back tail),
    )
