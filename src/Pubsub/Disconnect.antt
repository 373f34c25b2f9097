-- ===== src/Pubsub/Disconnect.antt =====
-- pubsub.c `pubsub_unsubscribe_all`, which a client's end calls for.
use miniredis.Common.{
  ℕ, ◌≤◌, ◌≡◌, refl, sym, ap, ◌∙◌, arith, Bytes, true, ◌&&◌, some, List, [], ◌∷◌, ◌==◌, leb,
  Bool-cases, inl, inr, if◌then◌else◌, bytes_eq, bytes_eq_refl, eq_of_bytes_eq,
}
use miniredis.Dict.{Dict, Entry, dict_assign, entries_of}
use miniredis.Dict.Chain.{find, count, find-eq-none}
use miniredis.Dict.Laws.Valid.{IsValid, view}
use miniredis.Dict.Laws.Resize.{entries_of-view}
use miniredis.Dict.Laws.Ops.{dict_assign-Writes}
use miniredis.Pubsub.{
  Pubsub, leave_all, pubsub_unsubscribe_all, set_client, set_subscribed, detach_all,
}
use miniredis.Pubsub.Deliveries.{
  times, members, deliveries, times-detach_all, sum-eq, sum_zero, PubsubValid,
}
use miniredis.Pubsub.Channels.{LeftAll, LeftAll-none, count_tail, met}

==_refl : (c : ℕ) → (c == c) ≡ true
==_refl c = ground arith

-- The client is detached from the lists that `es` names.
record Detached (c : ℕ) (es : List (Entry (List ℕ))) (d d' : Dict (List ℕ)) : Type 0 where
  valid : IsValid d'
  left :
      (q : Bytes) (c' : ℕ)
      → times c' (members (view d' q))
        ≡ (if (c == c') && leb 1 (count q es) then 0 else times c' (members (view d q)))

leave_all-Detached :
    (c : ℕ) (es : List (Entry (List ℕ))) (d : Dict (List ℕ))
    → IsValid d
    → ((q : Bytes) (l : List ℕ) → find q es ≡ some l → view d q ≡ some l)
    → ((q : Bytes) → count q es ≤ 1)
    → Detached c es d (leave_all c es d)
unfolding leave_all count find members
leave_all-Detached c [] d v lists once = record { valid = v; left = λ q c'. ground arith }
leave_all-Detached c (e ∷ es) d v lists once =
    let here = lists e.key e.val (rw (bytes_eq_refl e.key) refl) in
    let w = dict_assign-Writes d e.key (detach_all c e.val) e.val v here in
    let d' = dict_assign d e.key (detach_all c e.val) in
    let lists' : (q : Bytes) (l : List ℕ) → find q es ≡ some l → view d' q ≡ some l = λ q l found.
      elim (Bool-cases (bytes_eq e.key q)) [
        | inl same ↦ cc (find-eq-none q es (ground (arith, once q, same)), found)
        | inr other ↦ w.views q ∙ rw other (lists q l (rw other found))
      ] in
    let rest = leave_all-Detached c es d' w.valid lists' (λ q. count_tail q e es (once q)) in
    record {
      valid = rest.valid;
      left = λ q c'. elim (Bool-cases (bytes_eq e.key q)) [
        | inl same ↦
            let held : view d q ≡ some e.val =
              ap (view d) (sym (eq_of_bytes_eq e.key q same)) ∙ here in
            let new : view d' q ≡ some (detach_all c e.val) = w.views q ∙ rw same refl in
            ground (
              arith,
              same,
              once q,
              rest.left q c',
              ap (λ o. times c' (members o)) held,
              ap (λ o. times c' (members o)) new,
              times-detach_all c c' e.val,
            )
        | inr other ↦
            let new : view d' q ≡ view d q = w.views q ∙ rw other refl in
            ground (arith, other, rest.left q c', ap (λ o. times c' (members o)) new)
      ];
    }

-- On a well-formed registry, a client that is dropped from every channel stands in no list
-- afterwards, the other clients are where they were, it counts no channel, and the registry stays
-- well formed.
pub pubsub_unsubscribe_all-LeftAll :
    (ps : Pubsub) (c : ℕ)
    → PubsubValid ps
    → let ps' = pubsub_unsubscribe_all ps c in
      PubsubValid ps' × LeftAll ps c ps' × ((ps'.clients c).subscribed ≡ 0)
unfolding pubsub_unsubscribe_all view deliveries members set_subscribed set_client
pubsub_unsubscribe_all-LeftAll ps c v = elim (Bool-cases ((ps.clients c).subscribed == 0)) [
  | inl idle ↦
      let e : (ps.clients c).subscribed ≡ 0 = ground (arith, idle) in
      rw idle (v, LeftAll-none ps c v e, e)
  | inr busy ↦
      let es = entries_of ps.channels.table in
      let reads =
        λ (q : Bytes). entries_of-view ps.channels.seed ps.channels.table q v.channels.placed in
      let r =
        leave_all-Detached c es ps.channels v.channels (λ q l found. sym (reads q).0 ∙ found)
          (λ q. (reads q).1) in
      let now : Bytes → ℕ → ℕ = λ q c'. times c' (members (view (leave_all c es ps.channels) q)) in
      let left : (q : Bytes) (c' : ℕ) → now q c' ≡ (if c == c' then 0 else deliveries ps q c') =
        λ q c'. elim (Bool-cases (count q es == 0)) [
          | inl absent ↦ ground (arith, absent, r.left q c', met ps c' q v)
          | inr there ↦ ground (arith, there, r.left q c')
        ] in
      rw busy (
        record {
          channels = r.valid;
          once = λ k c'. ground (arith, left k c', v.once k c');
          counted = λ c' ks distinct. elim (Bool-cases (c == c')) [
            | inl same ↦
                rw same (
                  omega (arith, sum_zero (λ k. now k c') ks (λ k. ground (arith, left k c', same))))
            | inr other ↦
                let kept =
                  sum-eq (λ k. deliveries ps k c') (λ k. now k c') ks
                    (λ k. ground (arith, left k c', other)) in
                rw other (omega (arith, kept, v.counted c' ks distinct))
          ];
        },
        left,
        ground (arith, ==_refl c),
      )
]
