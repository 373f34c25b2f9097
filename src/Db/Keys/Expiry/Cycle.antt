-- ===== src/Db/Keys/Expiry/Cycle.antt =====
-- db.c `db_expire_cycle`: the active expiration is invisible, and its loop ends.
use miniredis.Common.{
  ℕ, zero, suc, ◌+◌, ◌≤◌, Bytes, Bool, true, false, ◌&&◌, none, some, List, [], ◌∷◌, ℤ, ◌≡◌, ◌∙◌,
  refl, sym, ap, inl, inr, arith, if◌then◌else◌, Bool-cases, get_or, length, ltb, leb, ◌==◌,
}
use miniredis.Object.{Robj}
use miniredis.Dict.{Entry}
use miniredis.Dict.Laws.Buckets.{Each, Each-map, walk-view, size-dict_delete}
use miniredis.Db.{Db, key_expired, store_delete}
use miniredis.Db.Live.{DbValid, alive, live, unchanged, store_delete-Becomes}
use miniredis.Db.Keys.Expiry.{
  expire_chain, expire_loop, rewind, db_expire_cycle, expire_cycle_max_keys,
}

-- `s'` is valid and holds the same live objects as `s`.
abbrev pub Keeps : ℤ → Db → Db → Type 0
Keeps now s s' = DbValid s' × ((q : Bytes) → live now s' q ≡ live now s q)

-- An entry that expired is that of a key without live object.
abbrev Sound : ℤ → Db → Entry Robj → Type 0
Sound now s e = key_expired now e.val ≡ true → live now s e.key ≡ none

expire_step :
    (now : ℤ) (s : Db) (e : Entry Robj)
    → DbValid s
    → Sound now s e
    → Keeps now s (if key_expired now e.val then store_delete s e.key else s)
expire_step now s e v lost = elim (Bool-cases (key_expired now e.val)) [
  | inr fresh ↦ rw fresh (v, λ q. refl)
  | inl old ↦
      let b = store_delete-Becomes now s v e.key in
      rw old (b.valid, unchanged now s v e.key b (lost old))
]

expire_chain-Keeps :
    (now : ℤ) (es : List (Entry Robj)) (s : Db)
    → DbValid s
    → Each (Sound now s) es
    → Keeps now s (expire_chain now es s)
unfolding expire_chain
expire_chain-Keeps now [] s v h = (v, λ q. refl)
expire_chain-Keeps now (e ∷ es) s v h =
    let (ok, same) = expire_step now s e v h.0 in
    let (ok', same') =
      expire_chain-Keeps now es _ ok (Each-map es (λ x lost old. same x.key ∙ lost old) h.1) in
    (ok', λ q. same' q ∙ same q)

-- The cursor is no part of what the store holds.
move_cursor : (now : ℤ) (s : Db) (b : ℕ) → DbValid s → Keeps now s (record s { expire_cursor = b })
unfolding live
move_cursor now s b v = (record { keys = v.keys; values = v.values }, λ q. refl)

gone : (now : ℤ) (o : Robj) → key_expired now o ≡ true → alive now (some o) ≡ none
unfolding alive
gone now o old = rw old refl

bucket-Sound : (now : ℤ) (s : Db) (b : ℕ) → DbValid s → Each (Sound now s) (get_or s.d.table b [])
unfolding live
bucket-Sound now s b v =
    Each-map (get_or s.d.table b []) (λ e held old. ap (alive now) held ∙ gone now e.val old)
      (walk-view s.d b v.keys)

expire_loop-Keeps :
    (now : ℤ) (rounds examined : ℕ) (s : Db)
    → DbValid s
    → Keeps now s (expire_loop now rounds examined s)
unfolding expire_loop
expire_loop-Keeps now zero examined s v = (v, λ q. refl)
expire_loop-Keeps now (suc rounds) examined s v =
    let b = s.expire_cursor in
    let chain = get_or s.d.table b [] in
    let (ok, same) = move_cursor now s (b + 1) v in
    let s₁ : Db = record s { expire_cursor = b + 1 } in
    let (ok', same') = expire_chain-Keeps now chain s₁ ok (bucket-Sound now s₁ b ok) in
    let (ok'', same'') =
      expire_loop-Keeps now rounds (examined + length chain) (expire_chain now chain s₁) ok' in
    elim (Bool-cases (ltb examined expire_cycle_max_keys && ltb b s.d.size)) [
      | inl more ↦ rw more (ok'', λ q. same'' q ∙ same' q ∙ same q)
      | inr done ↦ rw done (v, λ q. refl)
    ]

rewind-Keeps : (now : ℤ) (s : Db) → DbValid s → Keeps now s (rewind s)
unfolding rewind
rewind-Keeps now s v = elim (Bool-cases (leb s.d.size s.expire_cursor)) [
  | inl end ↦ rw end (move_cursor now s 0 v)
  | inr inside ↦ rw inside (v, λ q. refl)
]

-- A cycle of the active expiration, wherever its cursor stands, keeps a valid store valid and
-- leaves the live object of every key: it drops expired keys alone.
pub db_expire_cycle-Keeps :
    (now : ℤ) (s : Db)
    → DbValid s
    → DbValid (db_expire_cycle now s)
      × ((q : Bytes) → live now (db_expire_cycle now s) q ≡ live now s q)
unfolding db_expire_cycle
db_expire_cycle-Keeps now s v = elim (Bool-cases (s.d.size == 0)) [
  | inl empty ↦ rw empty (move_cursor now s 0 v)
  | inr filled ↦
      let (ok, same) = rewind-Keeps now s v in
      let (ok', same') = expire_loop-Keeps now s.d.size 0 (rewind s) ok in
      let (ok'', same'') = rewind-Keeps now (expire_loop now s.d.size 0 (rewind s)) ok' in
      rw filled (ok'', λ q. same'' q ∙ same' q ∙ same q)
]

step-frame :
    (b : Bool) (s : Db) (k : Bytes)
    → ((if b then store_delete s k else s).d.size ≡ s.d.size)
      × ((if b then store_delete s k else s).expire_cursor ≡ s.expire_cursor)
unfolding store_delete
step-frame true s k = (size-dict_delete s.d k, refl)
step-frame false s k = (refl, refl)

expire_chain-frame :
    (now : ℤ) (es : List (Entry Robj)) (s : Db)
    → ((expire_chain now es s).d.size ≡ s.d.size)
      × ((expire_chain now es s).expire_cursor ≡ s.expire_cursor)
unfolding expire_chain
expire_chain-frame now [] s = (refl, refl)
expire_chain-frame now (e ∷ es) s =
    let (size, cursor) = step-frame (key_expired now e.val) s e.key in
    let (size', cursor') =
      expire_chain-frame now es (if key_expired now e.val then store_delete s e.key else s) in
    (size' ∙ size, cursor' ∙ cursor)

loop_ended :
    (now : ℤ) (rounds examined : ℕ) (s : Db)
    → s.d.size ≤ s.expire_cursor
    → expire_loop now rounds examined s ≡ s
unfolding expire_loop
loop_ended now zero examined s h = refl
loop_ended now (suc rounds) examined s h = ground arith

more_rounds :
    (now : ℤ) (n m examined : ℕ) (s : Db)
    → let s' =
        expire_chain now
          (get_or s.d.table s.expire_cursor [])
          (record s { expire_cursor = s.expire_cursor + 1 }) in
      let seen = examined + length (get_or s.d.table s.expire_cursor []) in
      expire_loop now n seen s' ≡ expire_loop now m seen s'
      → expire_loop now (suc n) examined s ≡ expire_loop now (suc m) examined s
unfolding expire_loop
more_rounds now n m examined s e =
    ap (λ x. if ltb examined expire_cycle_max_keys && ltb s.expire_cursor s.d.size then x else s) e

-- The loop of an expire cycle ends: a round for each bucket from the cursor on is enough, and more
-- rounds change nothing.
pub expire_loop-enough :
    (now : ℤ) (rounds extra examined : ℕ) (s : Db)
    → s.d.size ≤ s.expire_cursor + rounds
    → expire_loop now (rounds + extra) examined s ≡ expire_loop now rounds examined s
expire_loop-enough now zero extra examined s h =
    loop_ended now (0 + extra) examined s (omega arith)
    ∙ sym (loop_ended now 0 examined s (omega arith))
expire_loop-enough now (suc rounds) extra examined s h =
    let b = s.expire_cursor in
    let chain = get_or s.d.table b [] in
    let s₁ : Db = record s { expire_cursor = b + 1 } in
    let (size, cursor) = expire_chain-frame now chain s₁ in
    let rest =
      expire_loop-enough now rounds extra (examined + length chain) (expire_chain now chain s₁)
        (omega (arith, size, cursor)) in
    let e : suc rounds + extra ≡ suc (rounds + extra) = omega arith in
    ap (λ n. expire_loop now n examined s) e
    ∙ more_rounds now (rounds + extra) rounds examined s rest
