-- ===== src/Files.antt =====
-- `write_full` of aof.c and rdb.c, and the replacement of a file through a temporary one that
-- `aof_rewrite` and `rdb_save` share. What the system calls return is a list given from outside.
use miniredis.Common.{
  ℕ, Bytes, Bool, true, false, ◌&&◌, List, [], ◌∷◌, ◌++◌, if◌then◌else◌, take, drop, take-drop, ◌≡◌,
  refl, append-nil, append_assoc, ◌∙◌, sym, ap,
}

-- What one `write` does: it takes some bytes, is interrupted, or fails.
pub data Call : Type 0 where
  wrote : ℕ → Call
  interrupted failed : Call

-- The file after the bytes `left` were written to it, and whether all were. Behind the listed calls
-- a `write` takes all that it is given.
unfoldable pub write_full : List Call → Bytes → Bytes → Bool × Bytes × List Call
write_full calls [] file = (true, file, calls)
write_full [] (b ∷ left) file = (true, file ++ b ∷ left, [])
write_full (wrote n ∷ calls) (b ∷ left) file =
    write_full calls (drop n (b ∷ left)) (file ++ take n (b ∷ left))
write_full (interrupted ∷ calls) (b ∷ left) file = write_full calls (b ∷ left) file
write_full (failed ∷ calls) (b ∷ left) file = (false, file, calls)

-- What the calls around the writes return, true for success.
pub record Replacing : Type 0 where
  pub opens : Bool
  pub writes : List Call
  pub fsyncs : Bool
  pub closes : Bool
  pub renames : Bool

-- The file at the path after `written`, what the writes to the temporary file came to.
unfoldable pub replace_file : Replacing → Bool × Bytes → Bytes → Bool × Bytes
replace_file r (ok, new) old =
    if r.opens && (ok && (r.fsyncs && (r.closes && r.renames))) then (true, new) else (false, old)

-- What `write_full` did to a file.
abbrev pub Written : Bytes → Bytes → Bool × Bytes × List Call → Type 0
Written left file r =
    (written : Bytes) × (rest : Bytes) × (left ≡ written ++ rest)
    × (r.1 ≡ file ++ written)
    × (r.0 ≡ true → rest ≡ [])

-- `write_full`, for every sequence of short writes, interruptions and failures, appends a prefix of
-- its bytes to the file, and all of them where it reports success.
pub write_full_lem :
    (calls : List Call) (left file : Bytes) → Written left file (write_full calls left file)
unfolding write_full
write_full_lem calls [] file = ([], [], refl, sym (append-nil file), λ h. refl)
write_full_lem [] (b ∷ left) file = (b ∷ left, [], sym (append-nil (b ∷ left)), refl, λ h. refl)
write_full_lem (failed ∷ calls) (b ∷ left) file =
    ([], b ∷ left, refl, sym (append-nil file), λ h. absurd cc)
write_full_lem (interrupted ∷ calls) (b ∷ left) file = write_full_lem calls (b ∷ left) file
write_full_lem (wrote n ∷ calls) (b ∷ left) file =
    let l = b ∷ left in
    let (w, rest, e, f, h) = write_full_lem calls (drop n l) (file ++ take n l) in
    (
      take n l ++ w,
      rest,
      sym (take-drop n l) ∙ ap (λ t. take n l ++ t) e ∙ sym (append_assoc (take n l) w rest),
      f ∙ append_assoc file (take n l) w,
      h,
    )

pub write_full-free :
    (left file : Bytes)
    → ((write_full [] left file).0 ≡ true) × ((write_full [] left file).1 ≡ file ++ left)
unfolding write_full
write_full-free [] file = (refl, sym (append-nil file))
write_full-free (b ∷ left) file = (refl, refl)
