-- ===== src/Pubsub/Channels.antt =====
-- pubsub.c: leaving every channel.
use miniredis.Common.{
  ℕ, ◌+◌, ◌≤◌, ◌≡◌, refl, sym, ap, ◌∙◌, arith, Bytes, true, false, ◌&&◌, some, List, [], ◌∷◌, ◌==◌,
  leb, Bool-cases, inl, inr, if◌then◌else◌, bytes_eq, bytes_eq_refl, eq_of_bytes_eq,
}
use miniredis.Dict.{Entry, entries_of}
use miniredis.Dict.Chain.{find, count, find-eq-none}
use miniredis.Dict.Laws.Valid.{view}
use miniredis.Dict.Laws.Resize.{entries_of-view}
use miniredis.Pubsub.{
  Pubsub, leave_each, pubsub_unsubscribe, pubsub_unsubscribe_channels, client_in_list,
}
use miniredis.Pubsub.Deliveries.{
  times, members, deliveries, Distinct, bit_le, client_in_list-times, bit, sum, PubsubValid,
}
use miniredis.Pubsub.Leaving.{pubsub_unsubscribe-Left}

-- How many of the calls are for the channel.
unfoldable pub framed : Bytes → List (Bytes × ℕ) → ℕ
framed q [] = 0
framed q ((k, n) ∷ fs) = bit (bytes_eq k q) + framed q fs

-- The client left the channels that `es` names, each with one call if it was there.
record LeftEach (c : ℕ) (es : List (Entry (List ℕ))) (ps : Pubsub) (r : List (Bytes × ℕ) × Pubsub)
    : Type 0 where
  valid : PubsubValid r.1
  left :
      (q : Bytes) (c' : ℕ)
      → deliveries r.1 q c' ≡ (if (c == c') && leb 1 (count q es) then 0 else deliveries ps q c')
  frames : (q : Bytes) → framed q r.0 ≡ (if leb 1 (count q es) then deliveries ps q c else 0)

abbrev Lists : ℕ → List (Entry (List ℕ)) → Pubsub → Type 0
Lists c es ps = (q : Bytes) (l : List ℕ) → find q es ≡ some l → deliveries ps q c ≡ times c l

Lists-tail :
    (c : ℕ) (e : Entry (List ℕ)) (es : List (Entry (List ℕ))) (ps ps' : Pubsub)
    → Lists c (e ∷ es) ps
    → ((q : Bytes) → count q (e ∷ es) ≤ 1)
    → ((q : Bytes) → bytes_eq e.key q ≡ false → deliveries ps' q c ≡ deliveries ps q c)
    → Lists c es ps'
unfolding find count
Lists-tail c e es ps ps' lists once same q l found = elim (Bool-cases (bytes_eq e.key q)) [
  | inr other ↦ same q other ∙ lists q l (rw other found)
  | inl eq ↦ let absent = find-eq-none q es (ground (arith, once q, eq)) in cc (absent, found)
]

pub count_tail :
    (q : Bytes) (e : Entry (List ℕ)) (es : List (Entry (List ℕ)))
    → count q (e ∷ es) ≤ 1
    → count q es ≤ 1
unfolding count
count_tail q e es h = ground arith

leave_each-LeftEach :
    (c : ℕ) (es : List (Entry (List ℕ))) (ps : Pubsub)
    → PubsubValid ps
    → Lists c es ps
    → ((q : Bytes) → count q es ≤ 1)
    → LeftEach c es ps (leave_each c es ps)
unfolding leave_each framed count find
leave_each-LeftEach c [] ps v lists once = record {
  valid = v;
  left = λ q c'. ground arith;
  frames = λ q. refl;
}
leave_each-LeftEach c (e ∷ es) ps v lists once =
    let here = lists e.key e.val (rw (bytes_eq_refl e.key) refl) in
    let counts = client_in_list-times e.val c in
    let key_is = λ (q : Bytes) (same : bytes_eq e.key q ≡ true).
      ap (λ x. deliveries ps x c) (eq_of_bytes_eq e.key q same) in
    let once' = λ (q : Bytes). count_tail q e es (once q) in
    elim (Bool-cases (client_in_list e.val c)) [
      | inl there ↦
          let (l, _) = pubsub_unsubscribe-Left ps c e.key v in
          let ps' = (pubsub_unsubscribe ps c e.key).1 in
          let lists' =
            Lists-tail c e es ps ps' lists once (λ q other. l.left q c ∙ rw other refl) in
          let rest = leave_each-LeftEach c es ps' l.valid lists' once' in
          rw there (record {
            valid = rest.valid;
            left = λ q c'. ground (arith, rest.left q c', l.left q c', once q);
            frames = λ q. elim (Bool-cases (bytes_eq e.key q)) [
              | inl same ↦ ground (
                arith,
                same,
                here,
                key_is q same,
                there,
                counts,
                v.once q c,
                once q,
                rest.frames q,
              )
              | inr other ↦ ground (arith, other, rest.frames q, l.left q c)
            ];
          })
      | inr absent ↦
          let lists' = Lists-tail c e es ps ps lists once (λ q other. refl) in
          let rest = leave_each-LeftEach c es ps v lists' once' in
          rw absent (record {
            valid = rest.valid;
            left = λ q c'. elim (Bool-cases (c == c')) [
              | inr other ↦ ground (arith, other, rest.left q c')
              | inl eq ↦
                  let e' : c ≡ c' = ground (arith, eq) in
                  let moved = ap (deliveries ps q) e' in
                  elim (Bool-cases (bytes_eq e.key q)) [
                    | inr other ↦ ground (arith, other, rest.left q c')
                    | inl same ↦ ground (
                      arith,
                      same,
                      eq,
                      here,
                      key_is q same,
                      moved,
                      absent,
                      counts,
                      once q,
                      rest.left q c',
                    )
                  ]
            ];
            frames = λ q. elim (Bool-cases (bytes_eq e.key q)) [
              | inl same ↦
                  ground (arith, same, here, key_is q same, absent, counts, once q, rest.frames q)
              | inr other ↦ ground (arith, other, rest.frames q)
            ];
          })
    ]

-- A client that counts no channel stands in no list.
pub no_deliveries :
    (ps : Pubsub) (c : ℕ) (q : Bytes)
    → PubsubValid ps
    → (ps.clients c).subscribed ≡ 0
    → deliveries ps q c ≡ 0
unfolding sum
no_deliveries ps c q v e =
    let alone : Distinct (q ∷ []) = λ k. bit_le (bytes_eq k q) in
    omega (arith, v.counted c (q ∷ []) alone, e)

-- Where the iteration does not meet a channel, it has no list.
pub met :
    (ps : Pubsub) (c : ℕ) (q : Bytes)
    → PubsubValid ps
    → count q (entries_of ps.channels.table) ≡ 0
    → deliveries ps q c ≡ 0
unfolding view deliveries times members
met ps c q v absent =
    let es = entries_of ps.channels.table in
    let reads = (entries_of-view ps.channels.seed ps.channels.table q v.channels.placed).0 in
    ap (λ o. times c (members o)) (sym reads ∙ find-eq-none q es absent)

-- Nothing is delivered to the client on any channel, and to the others what was.
abbrev pub LeftAll : Pubsub → ℕ → Pubsub → Type 0
LeftAll ps c ps' =
    (q : Bytes) (c' : ℕ) → deliveries ps' q c' ≡ (if c == c' then 0 else deliveries ps q c')

pub LeftAll-none :
    (ps : Pubsub) (c : ℕ) → PubsubValid ps → (ps.clients c).subscribed ≡ 0 → LeftAll ps c ps
LeftAll-none ps c v e q c' = elim (Bool-cases (c == c')) [
  | inr other ↦ rw other refl
  | inl same ↦
      let e' : c ≡ c' = ground (arith, same) in
      ground (arith, same, ap (deliveries ps q) e', no_deliveries ps c q v e)
]

-- On a well-formed registry, a client that leaves all its channels stands in no list afterwards,
-- the other clients are where they were, `frame` is called once for each channel whose list held
-- the client and for no other, and the registry stays well formed.
pub pubsub_unsubscribe_channels-LeftAll :
    (ps : Pubsub) (c : ℕ)
    → PubsubValid ps
    → let r = pubsub_unsubscribe_channels ps c in
      PubsubValid r.1 × LeftAll ps c r.1 × ((q : Bytes) → framed q r.0 ≡ deliveries ps q c)
unfolding pubsub_unsubscribe_channels view deliveries framed members
pubsub_unsubscribe_channels-LeftAll ps c v = elim (Bool-cases ((ps.clients c).subscribed == 0)) [
  | inl idle ↦
      let e : (ps.clients c).subscribed ≡ 0 = ground (arith, idle) in
      rw idle (v, LeftAll-none ps c v e, λ q. sym (no_deliveries ps c q v e))
  | inr busy ↦
      let es = entries_of ps.channels.table in
      let reads =
        λ (q : Bytes). entries_of-view ps.channels.seed ps.channels.table q v.channels.placed in
      let r =
        leave_each-LeftEach c es ps v
          (λ q l found. ap (λ o. times c (members o)) (sym (reads q).0 ∙ found) ∙ refl)
          (λ q. (reads q).1) in
      rw busy (
        r.valid,
        λ q c'. elim (Bool-cases (count q es == 0)) [
          | inl absent ↦ ground (arith, absent, r.left q c', met ps c' q v)
          | inr there ↦ ground (arith, there, r.left q c')
        ],
        λ q. elim (Bool-cases (count q es == 0)) [
          | inl absent ↦ ground (arith, absent, r.frames q, met ps c q v)
          | inr there ↦ ground (arith, there, r.frames q)
        ],
      )
]
