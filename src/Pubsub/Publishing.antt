-- ===== src/Pubsub/Publishing.antt =====
-- pubsub.c: whom a message reaches; what a second subscription does to the count.
use miniredis.Common.{
  ℕ, ◌+◌, ◌≤◌, ◌≡◌, refl, sym, ap, ◌∙◌, arith, Bytes, Bool, true, false, Option, none, some, List,
  [], ◌∷◌, ◌++◌, ◌==◌, ◌&&◌, length, Bool-cases, inl, inr, if◌then◌else◌, bytes_eq, bytes_eq_refl,
  eq_of_bytes_eq,
}
use miniredis.Dict.{dict_get, dict_delete}
use miniredis.Dict.Laws.Valid.{view, dict_get-view, dict_create-IsValid}
use miniredis.Dict.Laws.Ops.{dict_delete-Writes}
use miniredis.Pubsub.{
  Subscriber, Pubsub, pubsub_create, pubsub_subscribe, pubsub_unsubscribe, pubsub_publish,
  publish_list, push_all, push_frame, set_client, set_subscribed,
}
use miniredis.Pubsub.Deliveries.{
  times, members, deliveries, bit, sum, sum-eq, sum_zero, PubsubValid,
}
use miniredis.Pubsub.Subscriptions.{pubsub_subscribe-Joined}
use miniredis.Pubsub.Leaving.{pubsub_unsubscribe-Left}

if_true {ℓ} : {A : Type ℓ} (x y : A) (b : Bool) → b ≡ true → (if b then x else y) ≡ x
if_true x y b h = rw h refl

if_false {ℓ} : {A : Type ℓ} (x y : A) (b : Bool) → b ≡ false → (if b then x else y) ≡ y
if_false x y b h = rw h refl

-- A frame goes to each client of a list that holds it once.
push_all-times :
    (frame : Bytes) (l : List ℕ) (clients : ℕ → Subscriber) (c : ℕ)
    → times c l ≤ 1
    → ((push_all frame l clients c).out
        ≡ (if times c l == 0 then (clients c).out else (clients c).out ++ frame))
      × ((push_all frame l clients c).subscribed ≡ (clients c).subscribed)
unfolding push_all times set_client
push_all-times frame [] clients c once = (refl, refl)
push_all-times frame (x ∷ l) clients c once =
    let clients' = set_client clients x (record (clients x) { out = (clients x).out ++ frame }) in
    elim (Bool-cases (x == c)) [
      | inl same ↦
          let e : x ≡ c = ground (arith, same) in
          let (outs, counts) = push_all-times frame l clients' c (ground (arith, same, once)) in
          let last : (times c l == 0) ≡ true = ground (arith, same, once) in
          let first : (bit (x == c) + times c l == 0) ≡ false = ground (arith, same) in
          let hit : clients' c ≡ record (clients c) { out = (clients c).out ++ frame } =
            rw same (ap (λ y. record (clients y) { out = (clients y).out ++ frame }) e) in
          (
            outs
                ∙ if_true _ _ (times c l == 0) last
                ∙ ap (λ s. s.out) hit
                ∙ sym (if_false _ _ (bit (x == c) + times c l == 0) first),
            counts ∙ ap (λ s. s.subscribed) hit,
          )
      | inr other ↦
          let (outs, counts) = push_all-times frame l clients' c (ground (arith, other, once)) in
          let miss : clients' c ≡ clients c = rw other refl in
          let num : bit (x == c) + times c l ≡ times c l = rw other (omega arith) in
          let choose = λ (n : ℕ) (s : Subscriber). if n == 0 then s.out else s.out ++ frame in
          (
            outs ∙ ap (choose (times c l)) miss ∙ ap (λ n. choose n (clients c)) (sym num),
            counts ∙ ap (λ s. s.subscribed) miss,
          )
    ]

-- A channel whose list is empty.
abbrev pub is_empty_list : Option (List ℕ) → Bool
is_empty_list (some []) = true
is_empty_list _ = false

-- Whom a message reaches, and which lists are there afterwards.
pub record Published (ps : Pubsub) (chan frame : Bytes) (r : ℕ × Pubsub) : Type 0 where
  pub valid : PubsubValid r.1
  pub receivers : r.0 ≡ length (members (view ps.channels chan))
  pub outs :
      (c : ℕ)
      → (r.1.clients c).out
        ≡ (if deliveries ps chan c == 0 then (ps.clients c).out else (ps.clients c).out ++ frame)
  pub same : (k : Bytes) (c : ℕ) → deliveries r.1 k c ≡ deliveries ps k c
  pub lists :
      (k : Bytes)
      → view r.1.channels k ≡ (
          if bytes_eq chan k && is_empty_list (view ps.channels chan)
          then none
          else view ps.channels k)

-- Dropping an empty list takes no delivery away.
emptied :
    (lists : Bytes → Option (List ℕ)) (chan k : Bytes) (c : ℕ) (o : Option (List ℕ))
    → lists chan ≡ some []
    → o ≡ (if bytes_eq chan k then none else lists k)
    → times c (members o) ≡ times c (members (lists k))
unfolding times members
emptied lists chan k c o e put = elim (Bool-cases (bytes_eq chan k)) [
  | inl same ↦ rw (put, same, sym (eq_of_bytes_eq chan k same), e) refl
  | inr other ↦ rw (put, other) refl
]

publish_list-Published :
    (ps : Pubsub) (chan msg : Bytes) (o : Option (List ℕ))
    → PubsubValid ps
    → view ps.channels chan ≡ o
    → Published ps chan (push_frame chan msg) (publish_list ps chan msg o)
unfolding publish_list deliveries members times
publish_list-Published ps chan msg none v e = record {
  valid = v;
  receivers = rw e refl;
  outs = λ c. rw e refl;
  same = λ k c. refl;
  lists = λ k. elim (Bool-cases (bytes_eq chan k)) [
    | inl eq ↦ rw (eq, e) refl
    | inr other ↦ rw other refl
  ];
}
publish_list-Published ps chan msg (some []) v e =
    let w = dict_delete-Writes ps.channels chan v.channels in
    let same = λ (k : Bytes) (c : ℕ). emptied (view ps.channels) chan k c _ e (w.views k) in
    record {
      valid = record {
        channels = w.valid;
        once = λ k c. ground (arith, same k c, v.once k c);
        counted = λ c ks distinct. omega (
          arith,
          sum-eq (λ k. deliveries ps k c)
              (λ k. times c (members (view (dict_delete ps.channels chan).1 k))) ks (λ k. same k c),
          v.counted c ks distinct,
        );
      };
      receivers = rw e refl;
      outs = λ c. rw e refl;
      same = same;
      lists = λ k. w.views k ∙ elim (Bool-cases (bytes_eq chan k)) [
        | inl eq ↦ rw (eq, e) refl
        | inr other ↦ rw other refl
      ];
    }
publish_list-Published ps chan msg (some (x ∷ l)) v e =
    let sent = λ (c : ℕ).
      push_all-times (push_frame chan msg) (x ∷ l) ps.clients c
        (omega (arith, v.once chan c, ap (λ o. times c (members o)) e)) in
    record {
      valid = record {
        channels = v.channels;
        once = v.once;
        counted = λ c ks distinct. omega (arith, v.counted c ks distinct, (sent c).1);
      };
      receivers = rw e refl;
      outs = λ c. rw e (sent c).0;
      same = λ k c. refl;
      lists = λ k. elim (Bool-cases (bytes_eq chan k)) [
        | inl eq ↦ rw (eq, e) refl
        | inr other ↦ rw other refl
      ];
    }

-- On a well-formed registry, a message is appended as one frame to what waits for each client in
-- the list of its channel and to no other client, the number of those clients is returned, no
-- subscription changes, the channel's list is dropped if it is empty and every other list is as it
-- was, and the registry stays well formed.
pub pubsub_publish-Published :
    (ps : Pubsub) (chan msg : Bytes)
    → PubsubValid ps
    → Published ps chan (push_frame chan msg) (pubsub_publish ps chan msg)
unfolding pubsub_publish
pubsub_publish-Published ps chan msg v =
    publish_list-Published ps chan msg (dict_get ps.channels chan) v
      (sym (dict_get-view ps.channels chan v.channels))

-- The count that a client has after a subscription is the one that was returned.
subscribed-count :
    (ps : Pubsub) (c : ℕ) (chan : Bytes)
    → let r = pubsub_subscribe ps c chan in (r.1.clients c).subscribed ≡ r.0
unfolding pubsub_subscribe set_subscribed set_client
subscribed-count ps c chan = elim (Bool-cases (c == c)) [
  | inl same ↦ rw same refl
  | inr other ↦ ground (arith, other)
]

-- On a well-formed registry, a client that subscribes twice to a channel and leaves it once gets
-- nothing on that channel, but counts one channel more than before.
pub pubsub_unsubscribe-twice :
    (ps : Pubsub) (c : ℕ) (chan : Bytes)
    → PubsubValid ps
    → let once = (pubsub_subscribe ps c chan).1 in
      let twice = (pubsub_subscribe once c chan).1 in
      let r = pubsub_unsubscribe twice c chan in
      (deliveries r.1 chan c ≡ 0) × (r.0 ≡ (ps.clients c).subscribed + 1)
pubsub_unsubscribe-twice ps c chan v =
    let once = (pubsub_subscribe ps c chan).1 in
    let twice = (pubsub_subscribe once c chan).1 in
    let (v₁, count₁, _) = pubsub_subscribe-Joined ps c chan v in
    let (v₂, count₂, in₂) = pubsub_subscribe-Joined once c chan v₁ in
    let (l, count₃) = pubsub_unsubscribe-Left twice c chan v₂ in
    let here = bytes_eq_refl chan in
    let n₁ = subscribed-count ps c chan in
    let n₂ = subscribed-count once c chan in
    (
      ground (arith, l.left chan c, here),
      ground (arith, in₂ chan c, here, count₁, count₂, count₃, n₁, n₂),
    )

-- A new registry is well formed.
pub pubsub_create-PubsubValid :
    (seed : Bytes) (clients : ℕ → Subscriber) → PubsubValid (pubsub_create seed clients)
unfolding pubsub_create deliveries members times sum
pubsub_create-PubsubValid seed clients =
    let (v, empty) = dict_create-IsValid seed in
    let none_there = λ (k : Bytes) (c : ℕ). ap (λ o. times c (members o)) (empty k) in
    record {
      channels = v;
      once = λ k c. omega (arith, none_there k c);
      counted = λ c ks distinct. omega (arith, sum_zero _ ks (λ k. none_there k c));
    }
