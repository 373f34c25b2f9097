-- ===== src/Server/Write.antt =====
-- server.c `write_client` and `compact_clients`: output that is sent in pieces, and the clients that
-- are left.
use miniredis.Common.{
  ℕ, zero, suc, ◌+◌, ◌-◌, ◌≤◌, ◌≡◌, refl, sym, ap, ◌∙◌, arith, Bytes, Bool, true, false, List, [],
  ◌∷◌, ◌++◌, ltb, ◌==◌, if◌then◌else◌, length, take, drop, take-drop, min, append-nil, append_assoc,
}

-- What one `send` returns: a number of bytes, or an error; `EINTR` and `EAGAIN` stand apart.
pub data Send : Type 0 where
  sent : ℕ → Send
  interrupted would_block failed : Send

pub record Output : Type 0 where
  pub out : Bytes
  pub out_sent : ℕ

-- The bytes that wait.
unfoldable pub pending : Output → Bytes
pending o = drop o.out_sent o.out

-- The result, 0 as true and -1 as false, the output, and what the socket took so far.
abbrev Written : Type 0
Written = Bool × Output × Bytes

flushed : Bytes → Written
flushed wire = (true, record { out = []; out_sent = 0 }, wire)

-- Behind the listed calls a `send` takes all that it is given; no `send` takes more.
unfoldable pub write_client : List Send → Output → Bytes → Written
unfolding flushed
write_client [] o wire = flushed (wire ++ pending o)
write_client (c ∷ calls) o wire =
    let taken : ℕ → ℕ = λ k. min k (length o.out - o.out_sent) in
    let after : ℕ → Written = λ k.
      write_client calls (record o { out_sent = o.out_sent + taken k })
        (wire ++ take (taken k) (pending o)) in
    let again = write_client calls o wire in
    if ltb o.out_sent (length o.out)
    then elim c [
      | sent k ↦ if k == 0 then (false, o, wire) else after k
      | interrupted ↦ again
      | would_block ↦ (true, o, wire)
      | failed ↦ (false, o, wire)
    ]
    else flushed wire

-- The clients that are not closing, in their order.
unfoldable pub compact_clients {ℓ} : {A : Type ℓ} → (A → Bool) → List A → List A
compact_clients closing [] = []
compact_clients closing (c ∷ clients) =
    let rest = compact_clients closing clients in if closing c then rest else c ∷ rest

drop-nil : (n : ℕ) → drop {A = ℕ} n [] ≡ []
unfolding drop
drop-nil zero = refl
drop-nil (suc n) = refl

drop-drop : (m n : ℕ) (l : Bytes) → drop (m + n) l ≡ drop n (drop m l)
unfolding drop
drop-drop zero n l = ap (λ k. drop k l) (omega arith)
drop-drop (suc m) n [] = drop-nil (suc m + n) ∙ sym (drop-nil n)
drop-drop (suc m) n (x ∷ l) =
    let e : suc m + n ≡ suc (m + n) = omega arith in ap (λ k. drop k (x ∷ l)) e ∙ drop-drop m n l

drop-all : (l : Bytes) (n : ℕ) → length l ≤ n → drop n l ≡ []
unfolding drop
drop-all [] n h = drop-nil n
drop-all (x ∷ l) zero h = absurd (omega (arith, h))
drop-all (x ∷ l) (suc n) h = drop-all l n (omega (arith, h))

-- Whether the socket is full at some call.
unfoldable pub meets_full : List Send → Bool
meets_full [] = false
meets_full (would_block ∷ calls) = true
meets_full (sent k ∷ calls) = meets_full calls
meets_full (interrupted ∷ calls) = meets_full calls
meets_full (failed ∷ calls) = meets_full calls

-- Nothing is lost, doubled or reordered, and nothing waits where no call blocked or failed.
pub record Sends (full : Bool) (o : Output) (wire : Bytes) (r : Written) : Type 0 where
  pub kept : r.2 ++ pending r.1 ≡ wire ++ pending o
  pub within : r.1.out_sent ≤ length r.1.out
  pub complete : r.0 ≡ true → full ≡ false → r.1.out ≡ []

Sends-if :
    (full : Bool) (o : Output) (wire : Bytes) (b : Bool) (x y : Written)
    → (b ≡ true → Sends full o wire x)
    → (b ≡ false → Sends full o wire y)
    → Sends full o wire (if b then x else y)
Sends-if full o wire true x y f g = f refl
Sends-if full o wire false x y f g = g refl

Sends-flushed :
    (full : Bool) (o : Output) (wire : Bytes)
    → ltb o.out_sent (length o.out) ≡ false
    → Sends full o wire (flushed wire)
unfolding flushed pending
Sends-flushed full o wire done = record {
  kept = ap (λ t. wire ++ t) (drop-nil 0 ∙ sym (drop-all o.out o.out_sent (ground (arith, done))));
  within = omega arith;
  complete = λ _ _. refl;
}

-- A `send` that took `n` bytes, and the calls behind it.
Sends-after :
    (full : Bool) (o : Output) (wire : Bytes) (n : ℕ) (r : Written)
    → Sends full (record o { out_sent = o.out_sent + n }) (wire ++ take n (pending o)) r
    → Sends full o wire r
unfolding pending
Sends-after full o wire n r s = record {
  kept =
      s.kept
      ∙ append_assoc wire (take n (pending o)) (drop (o.out_sent + n) o.out)
      ∙ ap (λ t. wire ++ (take n (pending o) ++ t)) (drop-drop o.out_sent n o.out)
      ∙ ap (λ t. wire ++ t) (take-drop n (pending o));
  within = s.within;
  complete = s.complete;
}

nothing_pending : pending (record { out = []; out_sent = 0 }) ≡ []
unfolding pending drop
nothing_pending = refl

-- However many bytes each `send` takes and whichever of them is interrupted, finds the socket full
-- or fails, what was sent and then what waits is the output as it was, with nothing lost, doubled
-- or reordered; and where the result is 0 and no call found the socket full, nothing waits and the
-- buffer is reset. The position must lie within the output.
pub write_client-Sends :
    (calls : List Send) (o : Output) (wire : Bytes)
    → o.out_sent ≤ length o.out
    → Sends (meets_full calls) o wire (write_client calls o wire)
unfolding write_client meets_full
write_client-Sends [] o wire h = record {
  kept = ap (λ t. (wire ++ pending o) ++ t) nothing_pending ∙ append-nil (wire ++ pending o);
  within = omega arith;
  complete = λ _ _. refl;
}
write_client-Sends (sent k ∷ calls) o wire h =
    let n = min k (length o.out - o.out_sent) in
    Sends-if _ o wire (ltb o.out_sent (length o.out)) _ _
      (λ more.
        Sends-if _ o wire (k == 0) _ _
          (λ z. record { kept = refl; within = h; complete = λ e f. absurd cc })
          (λ some_taken. Sends-after _ o wire n _ (
            write_client-Sends calls (record o { out_sent = o.out_sent + n }) _
              (ground (arith, h)))))
      (Sends-flushed _ o wire)
write_client-Sends (interrupted ∷ calls) o wire h =
    Sends-if _ o wire (ltb o.out_sent (length o.out)) _ _
      (λ more. write_client-Sends calls o wire h) (Sends-flushed _ o wire)
write_client-Sends (would_block ∷ calls) o wire h =
    Sends-if _ o wire (ltb o.out_sent (length o.out)) _ _
      (λ more. record { kept = refl; within = h; complete = λ e f. absurd cc })
      (Sends-flushed _ o wire)
write_client-Sends (failed ∷ calls) o wire h =
    Sends-if _ o wire (ltb o.out_sent (length o.out)) _ _
      (λ more. record { kept = refl; within = h; complete = λ e f. absurd cc })
      (Sends-flushed _ o wire)
