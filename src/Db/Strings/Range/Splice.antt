-- ===== src/Db/Strings/Range/Splice.antt =====
-- db.c: the bytes of a string after SETRANGE, and GETRANGE of what was written.
use miniredis.Common.{
  ℕ, ◌+◌, ◌-◌, ◌≤◌, ◌<◌, max, Bytes, List, ◌++◌, pos, ◌≡◌, ◌∙◌, refl, ap, inl, inr, arith,
  if◌then◌else◌, Bool-cases, length, ltb, ◌-ℤ◌, ◌+ℤ◌, take, drop, replicate, get_or, length-append,
  length-take, length-drop, length-replicate, get_or-take, get_or-drop, get_or-beyond,
  get_or-append_lt, get_or-append_length, get_or-replicate, take-append_self, drop-append_self,
}
use miniredis.Db.Strings.Range.{from_end, at_least_zero, getrange_bytes, setrange_bytes}

-- The buffer of SETRANGE before the copy.
grow : Bytes → ℕ → Bytes
grow b need = if ltb (length b) need then b ++ replicate (need - length b) 0 else b

length-grow : (b : Bytes) (need : ℕ) → length (grow b need) ≡ max (length b) need
unfolding grow
length-grow b need = elim (Bool-cases (ltb (length b) need)) [
  | inl short ↦ rw short (
      ground (
        arith,
        length-append b (replicate (need - length b) 0),
        length-replicate {A = ℕ} (need - length b) 0,
      ))
  | inr long ↦ rw long (ground arith)
]

get_or-grow : (b : Bytes) (need i : ℕ) → get_or (grow b need) i 0 ≡ get_or b i 0
unfolding grow
get_or-grow b need i = elim (Bool-cases (ltb (length b) need)) [
  | inr long ↦ rw long refl
  | inl short ↦ rw short (elim (Bool-cases (ltb i (length b))) [
    | inl inside ↦ get_or-append_lt b _ i 0 (ground arith)
    | inr outside ↦
        let beyond : length b ≤ i = ground arith in
        let e : length b + (i - length b) ≡ i = omega arith in
        rw (get_or-beyond b i 0 beyond) (
          rw e at (get_or-append_length b (replicate (need - length b) 0) (i - length b) 0)
          ∙ get_or-replicate (need - length b) (i - length b) 0)
  ])
]

module _ {ℓ} {A : Type ℓ} (d : A) where
  -- An index past the first part of two.
  get_or-append_ge :
      (xs ys : List A) (i : ℕ) → length xs ≤ i → get_or (xs ++ ys) i d ≡ get_or ys (i - length xs) d
  get_or-append_ge xs ys i h =
      let e : length xs + (i - length xs) ≡ i = omega arith in
      rw e at (get_or-append_length xs ys (i - length xs) d)

  drop-front : (xs ys : List A) (n : ℕ) → length xs ≡ n → drop n (xs ++ ys) ≡ ys
  drop-front xs ys n h = rw (← h) (drop-append_self xs ys)

-- The copied bytes and what stands behind them.
get_or-tail :
    (b : Bytes) (offset : ℕ) (val : Bytes) (i : ℕ)
    → offset ≤ i
    → get_or (val ++ drop (offset + length val) (grow b (offset + length val))) (i - offset) 0
      ≡ (if ltb i (offset + length val) then get_or val (i - offset) 0 else get_or b i 0)
get_or-tail b offset val i h =
    let need = offset + length val in
    let g = grow b need in
    elim (Bool-cases (ltb i need)) [
      | inl inside ↦ rw inside (get_or-append_lt val _ (i - offset) 0 (ground arith))
      | inr outside ↦
          let past : length val ≤ i - offset = ground arith in
          let e : need + (i - offset - length val) ≡ i = ground arith in
          rw outside (
            get_or-append_ge 0 val (drop need g) (i - offset) past
            ∙ get_or-drop need (i - offset - length val) g 0
            ∙ rw e (get_or-grow b need i))
    ]

-- SETRANGE leaves a string as long as it was or as the copy asks, with the copied bytes from the
-- offset on, and every other byte as it was, zero where the string was shorter.
pub setrange_bytes_lem :
    (b : Bytes) (offset : ℕ) (val : Bytes) (i : ℕ)
    → (length (setrange_bytes b offset val) ≡ max (length b) (offset + length val))
      × (get_or (setrange_bytes b offset val) i 0 ≡ (
          if ltb i offset
          then get_or b i 0
          else if ltb i (offset + length val)
          then get_or val (i - offset) 0
          else get_or b i 0))
unfolding setrange_bytes grow
setrange_bytes_lem b offset val i =
    let need = offset + length val in
    let g = grow b need in
    let size = length-grow b need in
    let front : length (take offset g) ≡ offset = omega (arith, length-take offset g, size) in
    let tail = val ++ drop need g in
    let back : length tail ≡ length val + (length g - need) =
      omega (arith, length-append val (drop need g), length-drop need g) in
    (
      omega (arith, length-append (take offset g) tail, front, back, size),
      elim (Bool-cases (ltb i offset)) [
        | inl before ↦ rw before (
            get_or-append_lt (take offset g) tail i 0 (ground (arith, front))
            ∙ get_or-take offset i g 0 (ground arith)
            ∙ get_or-grow b need i)
        | inr after ↦
            let past : offset ≤ i = ground arith in
            rw after (
              get_or-append_ge 0 (take offset g) tail i (omega arith)
              ∙ ap (λ n. get_or tail (i - n) 0) front
              ∙ get_or-tail b offset val i past)
      ],
    )

-- GETRANGE with both ends in the string is the bytes between them, ends included.
getrange_bytes-inside :
    (b : Bytes) (first last : ℕ)
    → first ≤ last
    → last < length b
    → getrange_bytes b (pos first) (pos last) ≡ take (last + 1 - first) (drop first b)
unfolding getrange_bytes from_end at_least_zero ◌-ℤ◌ ◌+ℤ◌
getrange_bytes-inside b first last order inside = ground arith

-- GETRANGE of the range that SETRANGE wrote is the value written, for a value that is not empty.
pub getrange_bytes-setrange_bytes :
    (b : Bytes) (offset : ℕ) (val : Bytes)
    → 0 < length val
    → getrange_bytes (setrange_bytes b offset val) (pos offset) (pos (offset + length val - 1))
      ≡ val
getrange_bytes-setrange_bytes b offset val some' =
    let size = (setrange_bytes_lem b offset val 0).0 in
    let g = grow b (offset + length val) in
    let front : length (take offset g) ≡ offset =
      omega (arith, length-take offset g, length-grow b (offset + length val)) in
    let count : offset + length val - 1 + 1 - offset ≡ length val = omega arith in
    getrange_bytes-inside _ offset (offset + length val - 1) (omega arith) (omega arith)
    ∙ rw count (
        unfold setrange_bytes grow in
        ap (take (length val)) (drop-front 0 (take offset g) _ offset front)
        ∙ take-append_self val (drop (offset + length val) g))
