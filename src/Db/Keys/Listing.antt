-- ===== src/Db/Keys/Listing.antt =====
-- db.c `cmd_keys`: the keys that are replied.
use miniredis.Common.{
  ℕ, suc, ◌≤◌, Bytes, true, false, Option, none, some, List, [], ◌∷◌, ℤ, ◌≡◌, ◌∙◌, refl, sym, ap,
  inl, inr, arith, if◌then◌else◌, bytes_eq, eq_of_bytes_eq, c_str, length, Bool-cases,
}
use miniredis.Util.Glob.{util_glob_match}
use miniredis.Dict.{Entry, entries_of}
use miniredis.Dict.Chain.{find, count}
use miniredis.Dict.Laws.Resize.{entries_of-view}
use miniredis.Dict.Laws.Valid.{view-table}
use miniredis.Object.{Robj}
use miniredis.Server.Reply.{Client, reply_array_header, reply_bulk}
use miniredis.Db.{Db, Env, key_expired}
use miniredis.Db.Live.{DbValid, alive, live}
use miniredis.Db.Lists.{reply_bulks}
use miniredis.Db.Keys.{key_matches, count_matches, reply_matches, cmd_keys}

-- How often a key stands in a list.
abbrev pub times : Bytes → List Bytes → ℕ
times q [] = 0
times q (k ∷ ks) = let n = times q ks in if bytes_eq k q then suc n else n

-- The keys of the entries that pass the test.
unfoldable pub matching : ℤ → Bytes → List (Entry Robj) → List Bytes
matching now pat [] = []
matching now pat (e ∷ es) =
    let ks = matching now pat es in if key_matches now pat e then e.key ∷ ks else ks

-- 1 for a live object whose key matches.
abbrev pub listed : Bytes → Bytes → Option Robj → ℕ
listed pat q none = 0
listed pat q (some o) = if util_glob_match pat q then 1 else 0

count_matches-matching :
    (now : ℤ) (pat : Bytes) (es : List (Entry Robj))
    → count_matches now pat es ≡ length (matching now pat es)
unfolding count_matches matching
count_matches-matching now pat [] = refl
count_matches-matching now pat (e ∷ es) = elim (Bool-cases (key_matches now pat e)) [
  | inl yes' ↦ rw yes' (ap suc (count_matches-matching now pat es))
  | inr no' ↦ rw no' (count_matches-matching now pat es)
]

reply_matches-matching :
    (now : ℤ) (pat : Bytes) (es : List (Entry Robj)) (c : Client)
    → reply_matches now pat es c ≡ reply_bulks c (matching now pat es)
unfolding reply_matches matching reply_bulks
reply_matches-matching now pat [] c = refl
reply_matches-matching now pat (e ∷ es) c = elim (Bool-cases (key_matches now pat e)) [
  | inl yes' ↦ rw yes' (reply_matches-matching now pat es (reply_bulk c e.key))
  | inr no' ↦ rw no' (reply_matches-matching now pat es c)
]

-- An entry of another key makes no difference to how often `q` stands there.
times-other :
    (now : ℤ) (pat q : Bytes) (e : Entry Robj) (es : List (Entry Robj))
    → bytes_eq e.key q ≡ false
    → times q (matching now pat (e ∷ es)) ≡ times q (matching now pat es)
unfolding matching
times-other now pat q e es other = elim (Bool-cases (key_matches now pat e)) [
  | inl yes' ↦ rw (yes', other) refl
  | inr no' ↦ rw no' refl
]

times-absent :
    (now : ℤ) (pat q : Bytes) (es : List (Entry Robj))
    → count q es ≡ 0
    → times q (matching now pat es) ≡ 0
unfolding count
times-absent now pat q [] h = unfold matching in refl
times-absent now pat q (e ∷ es) h = elim (Bool-cases (bytes_eq e.key q)) [
  | inl same ↦ absurd (ground arith)
  | inr other ↦ times-other now pat q e es other ∙ times-absent now pat q es (ground arith)
]

-- The entry of `q`, behind which `q` does not stand again.
times-here :
    (now : ℤ) (pat q : Bytes) (e : Entry Robj) (es : List (Entry Robj))
    → bytes_eq e.key q ≡ true
    → times q (matching now pat es) ≡ 0
    → times q (matching now pat (e ∷ es)) ≡ listed pat q (alive now (some e.val))
unfolding matching key_matches alive
times-here now pat q e es same rest =
    let name : util_glob_match pat q ≡ util_glob_match pat e.key =
      ap (util_glob_match pat) (sym (eq_of_bytes_eq e.key q same)) in
    elim (Bool-cases (key_expired now e.val)) [
      | inl old ↦ rw old rest
      | inr fresh ↦ elim (Bool-cases (util_glob_match pat e.key)) [
        | inl yes' ↦ rw (fresh, name, yes', same, rest) refl
        | inr no' ↦ rw (fresh, name, no') rest
      ]
    ]

times-matching :
    (now : ℤ) (pat q : Bytes) (es : List (Entry Robj))
    → count q es ≤ 1
    → times q (matching now pat es) ≡ listed pat q (alive now (find q es))
unfolding count find
times-matching now pat q [] h = unfold matching alive in refl
times-matching now pat q (e ∷ es) h = elim (Bool-cases (bytes_eq e.key q)) [
  | inl same ↦ rw same (times-here now pat q e es same (times-absent now pat q es (ground arith)))
  | inr other ↦
      rw other (times-other now pat q e es other ∙ times-matching now pat q es (ground arith))
]

-- On a valid store, KEYS leaves the store and replies an array whose announced length is the number
-- of keys that follow, in which a key stands exactly once if it is live and the pattern matches it,
-- and else not at all.
pub cmd_keys_lem :
    (env : Env) (name pat : Bytes) (s : Db) (c : Client)
    → DbValid s
    → let ks = matching env.now (c_str pat) (entries_of s.d.table) in
      (cmd_keys env (name ∷ pat ∷ []) s c ≡ (s, reply_bulks (reply_array_header c (length ks)) ks))
      × ((q : Bytes) → times q ks ≡ listed (c_str pat) q (live env.now s q))
unfolding cmd_keys live
cmd_keys_lem env name pat s c v =
    let es = entries_of s.d.table in
    let p = c_str pat in
    (
      rw (count_matches-matching env.now p es, reply_matches-matching env.now p es) refl,
      λ q.
          let (found, once) = entries_of-view s.d.seed s.d.table q v.keys.placed in
          times-matching env.now p q es once
          ∙ ap (λ o. listed p q (alive env.now o)) (found ∙ sym (view-table s.d q)),
    )
