-- ===== src/Server/Read/Chunks.antt =====
-- How the bytes were cut into chunks makes no difference.
use miniredis.Common.{
  ℕ, zero, suc, ◌≤◌, ◌<◌, ◌≡◌, refl, ap, arith, Bytes, Bool, List, ◌++◌, length, drop, Bool-cases,
  inl, inr, length-drop, length-append, drop-append_le, append_assoc, ◌⊎◌, le→ltb,
}
use miniredis.Resp.{Parse, incomplete, protocol_error, consumed, resp_parse_command}
use miniredis.Resp.Bounds.{Within, resp_parse_command-Within}
use miniredis.Resp.Extend.{resp_parse_command-Later}
use miniredis.Server.Read.{
  Conn, Status, running, closed, dropped, drain, receive_open, receive, max_query_buf,
}

Parse-cases :
    (x : Parse)
    → (x ≡ incomplete)
      ⊎ ((x ≡ protocol_error) ⊎ ((n : ℕ) × (argv : List Bytes) × (x ≡ consumed n argv)))
Parse-cases incomplete = inl refl
Parse-cases protocol_error = inr (inl refl)
Parse-cases (consumed n argv) = inr (inr (n, argv, refl))

Status-cases : (x : Status) → (x ≡ running) ⊎ ((x ≡ closed) ⊎ (x ≡ dropped))
Status-cases running = inl refl
Status-cases closed = inr (inl refl)
Status-cases dropped = inr (inr refl)

module _ {ℓ} {S : Type ℓ} (exec : S → List Bytes → S) (closing : S → Bool) where
  -- Fuel above the length of the buffer is enough, and more makes no difference.
  drain_fuel :
      (f g : ℕ) (s : S) (input : Bytes)
      → length input < f
      → length input < g
      → drain exec closing f s input ≡ drain exec closing g s input
  unfolding drain
  drain_fuel zero g s input h k = absurd (omega arith)
  drain_fuel (suc f) zero s input h k = absurd (omega arith)
  drain_fuel (suc f) (suc g) s input h k = elim (Parse-cases (resp_parse_command input)) [
    | inl e ↦ rw e refl
    | inr (inl e) ↦ rw e refl
    | inr (inr (n, argv, e)) ↦
        let w : Within (length input) (consumed n argv) =
          rw e at (resp_parse_command-Within input) in
        let ih =
          drain_fuel f g (exec s argv) (drop n input) (omega (arith, length-drop n input))
            (omega (arith, length-drop n input)) in
        elim (Bool-cases (closing (exec s argv))) [
          | inl last ↦ rw (e, last) refl
          | inr more ↦ rw (e, more, ih) refl
        ]
  ]

  -- The status and the state agree, and while the client is read, the unread bytes.
  abbrev pub Agree : Conn S → Conn S → Type ℓ
  Agree a b = (a.status ≡ b.status) × (a.state ≡ b.state) × (a.status ≡ running → a.input ≡ b.input)

  -- The drain of what was left and what arrived.
  abbrev resume : Conn S → Bytes → Conn S
  resume c more = elim c.status [
    | running ↦ drain exec closing (suc (length (c.input ++ more))) c.state (c.input ++ more)
    | closed ↦ c
    | dropped ↦ c
  ]

  Agree-of_eq : (a b : Conn S) → a ≡ b → Agree a b
  Agree-of_eq a b e = (ap (λ c. c.status) e, ap (λ c. c.state) e, λ _. ap (λ c. c.input) e)

  drain_waiting :
      (f : ℕ) (s : S) (input : Bytes)
      → resp_parse_command input ≡ incomplete
      → drain exec closing (suc f) s input ≡ record { input = input; state = s; status = running }
  unfolding drain
  drain_waiting f s input e = rw e

  resume_waiting :
      (f g : ℕ) (s : S) (input more : Bytes)
      → resp_parse_command input ≡ incomplete
      → length (input ++ more) < g
      → Agree
          (resume (drain exec closing (suc f) s input) more)
          (drain exec closing g s (input ++ more))
  resume_waiting f g s input more e k = rw (drain_waiting f s input e) (
      Agree-of_eq _ _
        (drain_fuel (suc (length (input ++ more))) g s (input ++ more) (omega arith) k))

  resume-drain :
      (f g : ℕ) (s : S) (input more : Bytes)
      → length input < f
      → length (input ++ more) < g
      → Agree (resume (drain exec closing f s input) more) (drain exec closing g s (input ++ more))
  unfolding drain
  resume-drain zero g s input more h k = absurd (omega arith)
  resume-drain (suc f) zero s input more h k = absurd (omega arith)
  resume-drain (suc f) (suc g) s input more h k = elim (Parse-cases (resp_parse_command input)) [
    | inl e ↦ resume_waiting f (suc g) s input more e k
    | inr (inl e) ↦
        let l : resp_parse_command (input ++ more) ≡ protocol_error =
          rw e at (resp_parse_command-Later input more) in
        rw (e, l) (refl, refl, λ h. cc)
    | inr (inr (n, argv, e)) ↦
        let w : Within (length input) (consumed n argv) =
          rw e at (resp_parse_command-Within input) in
        let l : resp_parse_command (input ++ more) ≡ consumed n argv =
          rw e at (resp_parse_command-Later input more) in
        let cut = drop-append_le n input more w.1 in
        let ih =
          resume-drain f g (exec s argv) (drop n input) more (omega (arith, length-drop n input)) (
            omega (
              arith,
              length-drop n input,
              length-append input more,
              length-append (drop n input) more,
            )) in
        elim (Bool-cases (closing (exec s argv))) [
          | inl last ↦ rw (e, l, last) (refl, refl, λ h. cc)
          | inr more' ↦ rw (e, l, more', cut) ih
        ]
  ]

  length-drain-input :
      (f : ℕ) (s : S) (input : Bytes) → length (drain exec closing f s input).input ≤ length input
  unfolding drain
  length-drain-input zero s input = omega arith
  length-drain-input (suc f) s input = elim (Parse-cases (resp_parse_command input)) [
    | inl e ↦ rw e (omega arith)
    | inr (inl e) ↦ rw e (omega arith)
    | inr (inr (n, argv, e)) ↦
        let ih = length-drain-input f (exec s argv) (drop n input) in
        elim (Bool-cases (closing (exec s argv))) [
          | inl last ↦ rw (e, last) (omega (arith, length-drop n input))
          | inr more ↦ rw (e, more) (omega (arith, length-drop n input))
        ]
  ]

  receive-resume :
      (c : Conn S) (chunk : Bytes)
      → length (c.input ++ chunk) ≤ max_query_buf
      → receive exec closing c chunk ≡ resume c chunk
  unfolding receive receive_open
  receive-resume c chunk fits = elim (Status-cases c.status) [
    | inl e ↦ rw (e, le→ltb max_query_buf (length (c.input ++ chunk)) fits) refl
    | inr (inl e) ↦ rw e refl
    | inr (inr e) ↦ rw e refl
  ]

  -- Two chunks received one after the other have the effect of one chunk: the same commands are
  -- executed in the same order on the same state, the client ends in the same status, and while it
  -- is read the same bytes wait, if the waiting bytes and both chunks together are within the cap
  -- on the query buffer.
  pub receive-receive :
      (c : Conn S) (a b : Bytes)
      → length (c.input ++ (a ++ b)) ≤ max_query_buf
      → Agree (receive exec closing (receive exec closing c a) b) (receive exec closing c (a ++ b))
  receive-receive c a b fits =
      let first : length (c.input ++ a) ≤ max_query_buf =
        omega (arith, length-append c.input a, length-append c.input (a ++ b), length-append a b) in
      let input = c.input ++ a in
      let run = drain exec closing (suc (length input)) c.state input in
      let kept = length-drain-input (suc (length input)) c.state input in
      rw (receive-resume c a first, receive-resume c (a ++ b) fits)
        (elim (Status-cases c.status) [
          | inl e ↦ rw e (
              rw
                (receive-resume run b (
                  omega (
                    arith,
                    length-append run.input b,
                    length-append c.input (a ++ b),
                    length-append a b,
                    length-append c.input a,
                  )))
                (rw (append_assoc c.input a b) at (
                  resume-drain (suc (length input)) (suc (length (input ++ b))) c.state input b
                    (omega arith) (omega arith))))
          | inr (inl e) ↦ rw e (unfold receive in (refl, refl, λ h. cc))
          | inr (inr e) ↦ rw e (unfold receive in (refl, refl, λ h. cc))
        ])
