-- ===== src/Dynbuf.antt =====
-- dynbuf.c: a growing byte buffer. `content` are the bytes up to `len`; the NUL behind them is part of
-- the capacity.
use native.Mathlib.Numerals.{unary_clauses}
use miniredis.Common.{
  ℕ, zero, suc, ◌+◌, ◌*◌, ◌%◌, ◌^◌, ◌≤◌, ◌<◌, ◌≡◌, refl, sym, ap, ◌∙◌, arith, Bytes, [], ◌∷◌, ◌++◌,
  length, length-append, ltb, leb, ◌==◌, if◌then◌else◌, c_str, append-nil, Bool-cases, inl, inr,
}

pub record Dynbuf : Type 0 where
  pub content : Bytes
  pub cap : ℕ

unfoldable pub dynbuf_init : Dynbuf
dynbuf_init = record { content = []; cap = 0 }

-- `while (newcap < need) newcap *= 2`, on `size_t`.
unfoldable pub double_cap : ℕ → ℕ → ℕ → ℕ
double_cap zero newcap need = newcap
double_cap (suc fuel) newcap need =
    let rest = double_cap fuel (newcap * 2 % 2 ^ 64) need in
    if ltb newcap need then rest else newcap

unfoldable pub dynbuf_reserve : Dynbuf → ℕ → Dynbuf
dynbuf_reserve b extra =
    let need = length b.content + extra + 1 in
    let newcap = if b.cap == 0 then 64 else b.cap in
    if leb need b.cap then b else record b { cap = double_cap 63 newcap need }

unfoldable pub dynbuf_append : Dynbuf → Bytes → Dynbuf
dynbuf_append b [] = b
dynbuf_append b (x ∷ s) =
    let b' = dynbuf_reserve b (length (x ∷ s)) in record b' { content = b'.content ++ x ∷ s }

unfoldable pub dynbuf_append_cstr : Dynbuf → Bytes → Dynbuf
dynbuf_append_cstr b s = dynbuf_append b (c_str s)

-- The text that the format prints to.
unfoldable pub dynbuf_appendf : Dynbuf → Bytes → Dynbuf
dynbuf_appendf b text =
    let b' = dynbuf_reserve b (length text) in record b' { content = b'.content ++ text }

unfoldable pub dynbuf_clear : Dynbuf → Dynbuf
dynbuf_clear b = record b { content = [] }

-- The invariant: the bytes and the NUL fit, or nothing was allocated yet.
pub data Fits (b : Dynbuf) : Type 0 where
  unallocated : b.content ≡ [] → b.cap ≡ 0 → Fits b
  allocated : length b.content < b.cap → Fits b

-- The capacity after `fuel` doublings.
reach : ℕ → ℕ → ℕ
reach zero cap = cap
reach (suc fuel) cap = reach fuel (cap * 2)

double_cap_enough :
    (fuel newcap need : ℕ)
    → need ≤ 2 ^ 63
    → need ≤ reach fuel newcap
    → need ≤ double_cap fuel newcap need
unfolding double_cap reach
double_cap_enough zero newcap need small h = h
double_cap_enough (suc fuel) newcap need small h = elim (Bool-cases (ltb newcap need)) [
  | inr done ↦ rw done (ground (arith, done))
  | inl short ↦
      let exact : newcap * 2 % 2 ^ 64 ≡ newcap * 2 = ground (arith, short) in
      rw (short, exact) (double_cap_enough fuel (newcap * 2) need small h)
]

reach_lem : (fuel cap : ℕ) → reach fuel cap ≡ cap * 2 ^ fuel
unfolding reach
reach_lem zero start = omega arith
reach_lem (suc fuel) start = reach_lem fuel (start * 2) ∙ simp unary_clauses (omega arith)

reach_63 : (cap need : ℕ) → 1 ≤ cap → need ≤ 2 ^ 63 → need ≤ reach 63 cap
reach_63 cap need positive small = rw (reach_lem 63 cap) (omega arith)

cap_positive : (cap : ℕ) → 1 ≤ (if cap == 0 then 64 else cap)
cap_positive cap = ground arith

dynbuf_reserve_lem :
    (b : Dynbuf) (extra : ℕ)
    → length b.content + extra + 1 ≤ 2 ^ 63
    → ((dynbuf_reserve b extra).content ≡ b.content)
      × (length b.content + extra + 1 ≤ (dynbuf_reserve b extra).cap)
unfolding dynbuf_reserve
dynbuf_reserve_lem b extra small =
    let need = length b.content + extra + 1 in
    let start = if b.cap == 0 then 64 else b.cap in
    elim (Bool-cases (leb need b.cap)) [
      | inl room ↦ rw room (refl, ground (arith, room))
      | inr full ↦ rw full (
        refl,
        double_cap_enough 63 start need small (reach_63 start need (cap_positive b.cap) small),
      )
    ]

-- Bytes that are appended stand behind those that were there, and the buffer is allocated larger
-- than all its bytes, so that the NUL behind them fits, if the bytes and the NUL are at most 2 ^ 63
-- in all; a buffer to which nothing is appended stays as it is.
pub dynbuf_append-Fits :
    (b : Dynbuf) (s : Bytes)
    → length b.content + length s + 1 ≤ 2 ^ 63
    → Fits b
    → ((dynbuf_append b s).content ≡ b.content ++ s) × Fits (dynbuf_append b s)
unfolding dynbuf_append
dynbuf_append-Fits b [] small fits = (sym (append-nil b.content), fits)
dynbuf_append-Fits b (x ∷ s) small fits =
    let reserved = dynbuf_reserve_lem b (length (x ∷ s)) small in
    let content = ap (λ c. c ++ x ∷ s) reserved.0 in
    (content, allocated (rw (content, length-append b.content (x ∷ s)) (omega (arith, reserved.1))))

-- A printed text stands behind the bytes that were there, and fits; the empty text allocates too.
pub dynbuf_appendf-Fits :
    (b : Dynbuf) (text : Bytes)
    → length b.content + length text + 1 ≤ 2 ^ 63
    → ((dynbuf_appendf b text).content ≡ b.content ++ text) × Fits (dynbuf_appendf b text)
unfolding dynbuf_appendf
dynbuf_appendf-Fits b text small =
    let reserved = dynbuf_reserve_lem b (length text) small in
    let content = ap (λ c. c ++ text) reserved.0 in
    (content, allocated (rw (content, length-append b.content text) (omega (arith, reserved.1))))
