-- ===== src/Resp/Lines.antt =====
-- Lines: what `get_line` finds stays found when more bytes arrive.
use miniredis.Common.{
  ℕ, ◌+◌, ◌≡◌, ap, arith, Bytes, Option, none, some, [], ◌∷◌, ◌++◌, length, Bool-cases, inl, inr,
  ◌==◌, ◌&&◌,
}
use miniredis.Resp.{get_line, cons_line, cr, lf}

cons_line-some :
    (a : ℕ) (o : Option (Bytes × Bytes)) (line rest : Bytes)
    → cons_line a o ≡ some (line, rest)
    → (l : Bytes) × (o ≡ some (l, rest)) × (line ≡ a ∷ l)
unfolding cons_line
cons_line-some a none line rest h = cc
cons_line-some a (some (l, r)) line rest h = (l, ground arith, ground arith)

pub get_line-append :
    (s more line rest : Bytes)
    → get_line s ≡ some (line, rest)
    → get_line (s ++ more) ≡ some (line, rest ++ more)
unfolding get_line
get_line-append [] more line rest h = cc
get_line-append (a ∷ []) more line rest h = cc
get_line-append (a ∷ b ∷ s) more line rest h = elim (Bool-cases ((a == cr) && (b == lf))) [
  | inl found ↦ ground arith
  | inr next ↦
      let h' : cons_line a (get_line (b ∷ s)) ≡ some (line, rest) = ground arith in
      let (l, e, q) = cons_line-some a (get_line (b ∷ s)) line rest h' in
      let ih = get_line-append (b ∷ s) more l rest e in unfold cons_line in ground arith
]

pub length-get_line :
    (s line rest : Bytes)
    → get_line s ≡ some (line, rest)
    → length s ≡ length line + 2 + length rest
unfolding get_line
length-get_line [] line rest h = cc
length-get_line (a ∷ []) line rest h = cc
length-get_line (a ∷ b ∷ s) line rest h = elim (Bool-cases ((a == cr) && (b == lf))) [
  | inl found ↦ ground arith
  | inr next ↦
      let h' : cons_line a (get_line (b ∷ s)) ≡ some (line, rest) = ground arith in
      let (l, e, q) = cons_line-some a (get_line (b ∷ s)) line rest h' in
      omega (arith, length-get_line (b ∷ s) l rest e, ap length q)
]
