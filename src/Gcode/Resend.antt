-- ===== src/Gcode/Resend.antt =====
-- agent_gcode.py: when the program is sent again, and which results count.

use text.Mathlib.TextPositions.{eq_refl}
use linuxcnc_status_monitor.Common.{
  ℕ, zero, suc, ◌+◌, ◌-◌, ◌*◌, ◌≤◌, ◌≡◌, ◌≢◌, ◌↔◌, ◌⊎◌, inl, inr, refl, ap, String, Bool, true,
  false, ◌&&◌, Option, none, some, List, [], ◌∷◌, length, ltb, leb, if◌then◌else◌, arith, if_cases,
  Bool-cases,
}
use linuxcnc_status_monitor.Gcode.Split.{split_content}
use linuxcnc_status_monitor.Gcode.Pieces.{joined, joined-split_content}
use linuxcnc_status_monitor.Gcode.Sender.{
  Fingerprint, Reason, Sender, retry_after_ms, send_tries, max_chunks, max_program_chars,
  same_print, is_sent, reset_sender, due, check_and_send, known_refusal, Packets, refusal, chunks,
  too_large, too_many_chunks, stream, prepare, note_refusal, send_packet, send_packets, finish_send,
  give_up,
}

-- what else may be called while a worker runs
pub data Call : Type 0 where
  restarted : Call
  checked : String → Fingerprint → ℕ → Call
  noted : Fingerprint → Reason → ℕ → Call

unfoldable pub answer : Call → Sender → Sender
answer restarted s = reset_sender s
answer (checked path fp now) s = (check_and_send path fp now s).1
answer (noted fp reason generation) s = note_refusal fp reason generation s

unfoldable pub answer_all : List Call → Sender → Sender
answer_all [] s = s
answer_all (c ∷ calls) s = answer_all calls (answer c s)

generation-answer : (c : Call) (s : Sender) → s.generation ≤ (answer c s).generation
unfolding answer reset_sender check_and_send note_refusal
generation-answer restarted s = omega arith
generation-answer (checked path fp now) s = ground arith
generation-answer (noted fp reason generation) s = ground arith

generation-answer_all :
    (calls : List Call) (s : Sender) → s.generation ≤ (answer_all calls s).generation
unfolding answer_all
generation-answer_all [] s = omega arith
generation-answer_all (c ∷ calls) s =
    omega (arith, generation-answer c s, generation-answer_all calls (answer c s))

started_generation :
    (path : String) (fp : Fingerprint) (now g : ℕ) (s : Sender)
    → (check_and_send path fp now s).0 ≡ some g
    → (g ≡ s.generation) × ((check_and_send path fp now s).1.generation ≡ s.generation)
unfolding check_and_send
started_generation path fp now g s h = ground arith

reset-generation : (s : Sender) → (reset_sender s).generation ≡ s.generation + 1
unfolding reset_sender
reset-generation s = refl

finish_send-stale :
    (fp : Fingerprint) (g : ℕ) (ok : Bool) (now : ℕ) (s : Sender)
    → g ≢ s.generation
    → finish_send fp g ok now s ≡ record s { worker_alive = false }
unfolding finish_send
finish_send-stale fp g ok now s d = ground arith

-- Whatever is called before and after a restart of LinuxCNC, a send that was started before it
-- and comes to its end after it changes nothing: only its worker is gone. If the file could not
-- be read, the end of the worker also puts the next try off by ten seconds.
pub stale_send_ignored :
    (path : String) (fp : Fingerprint) (now g later : ℕ) (ok : Bool) (before after : List Call)
    (s : Sender)
    → (check_and_send path fp now s).0 ≡ some g
    → let s' =
        answer_all after (reset_sender (answer_all before (check_and_send path fp now s).1)) in
      (finish_send fp g ok later s' ≡ record s' { worker_alive = false })
      × (give_up later s' ≡ record s' { worker_alive = false; retry_at = later + retry_after_ms })
unfolding give_up
stale_send_ignored path fp now g later ok before after s started =
    let s₁ = (check_and_send path fp now s).1 in
    let s₂ = answer_all before s₁ in
    let same = started_generation path fp now g s started in
    (
      finish_send-stale fp g ok later (answer_all after (reset_sender s₂)) (λ e. omega (
        arith,
        same.0,
        same.1,
        generation-answer_all before s₁,
        reset-generation s₂,
        generation-answer_all after (reset_sender s₂),
      )),
      refl,
    )

same_print_refl : (fp : Fingerprint) → same_print fp fp ≡ true
unfolding same_print
same_print_refl fp = ground (arith, eq_refl fp.name)

-- After a complete send the program is due again exactly when the resend interval, if it is not 0,
-- has passed; any other program is due at once.
pub due-sent :
    (fp other : Fingerprint) (now later : ℕ) (s : Sender)
    → same_print other fp ≡ false
    → let s' = finish_send fp s.generation true now s in
      (due fp later s' ≡ ltb 0 s.resend_ms && leb s.resend_ms (later - now))
      × (due other later s' ≡ true)
unfolding due finish_send is_sent
due-sent fp other now later s d = ground (arith, same_print_refl fp)

-- After a send that failed, nothing is due for ten seconds, and then every program but the one sent
-- before is.
pub due-failed :
    (fp other : Fingerprint) (now later : ℕ) (s : Sender)
    → is_sent other s.sent_fingerprint ≡ false
    → due other later (finish_send fp s.generation false now s) ≡ leb (now + retry_after_ms) later
unfolding due finish_send
due-failed fp other now later s d = ground arith

-- After a restart of LinuxCNC every program is due at once, if no worker runs.
pub due-reset :
    (fp : Fingerprint) (now : ℕ) (s : Sender)
    → s.worker_alive ≡ false
    → due fp now (reset_sender s) ≡ true
unfolding due reset_sender is_sent
due-reset fp now s off = ground arith

module _ (accepts : ℕ → Bool) where
  -- how many of the `n` calls of `send` from the `a`-th on were accepted
  abbrev pub accepted : ℕ → ℕ → ℕ
  accepted a zero = 0
  accepted a (suc n) = (if accepts a then 1 else 0) + accepted (suc a) n

  accepted-add : (a m n : ℕ) → accepted a (m + n) ≡ accepted a m + accepted (a + m) n
  accepted-add a zero n =
      let e : a + 0 ≡ a = omega arith in
      let none_yet : 0 + n ≡ n = omega arith in
      omega (arith, ap (λ i. accepted i n) e, ap (accepted a) none_yet)
  accepted-add a (suc m) n =
      let e : suc a + m ≡ a + suc m = omega arith in
      let later : suc m + n ≡ suc (m + n) = omega arith in
      omega (arith, accepted-add (suc a) m n, ap (λ i. accepted i n) e, ap (accepted a) later)

  accepted-send_packet :
      (tries call : ℕ)
      → (n : ℕ) × ((send_packet accepts tries call).1 ≡ call + n)
        × (n ≤ tries)
        × (accepted call n ≡ (if (send_packet accepts tries call).0 then 1 else 0))
  unfolding send_packet
  accepted-send_packet zero call = (0, omega arith, omega arith, refl)
  accepted-send_packet (suc tries) call =
      let (n, e, le, count) = accepted-send_packet tries (suc call) in
      elim (Bool-cases (accepts call)) [
        | inl taken ↦ (1, ground arith, omega arith, ground arith)
        | inr refused ↦ (suc n, ground arith, omega arith, ground arith)
      ]

  -- Sending takes at most three calls of send a packet, accepts no more calls than there are
  -- packets, and is ok exactly when as many calls were accepted as there are packets.
  pub accepted-send_packets :
      (packets call : ℕ)
      → (n : ℕ) × ((send_packets accepts packets call).1 ≡ call + n)
        × (n ≤ send_tries * packets)
        × (accepted call n ≤ packets)
        × (((send_packets accepts packets call).0 ≡ true) ↔ (accepted call n ≡ packets))
  unfolding send_packets
  accepted-send_packets zero call = (0, omega arith, omega arith, omega arith, ground arith)
  accepted-send_packets (suc packets) call =
      let (m, e₁, le₁, count₁) = accepted-send_packet send_tries call in
      let next = (send_packet accepts send_tries call).1 in
      let (n, e₂, le₂, most, count₂) = accepted-send_packets packets next in
      let total = accepted-add call m n in
      let same : accepted next n ≡ accepted (call + m) n = ap (λ i. accepted i n) e₁ in
      (m + n, omega arith, omega arith, ground arith, ground arith)

module _ {A : Type 0} (size : List A → ℕ) (budget chunk_size : ℕ) where
  abbrev pub IsWhole : List A → Packets A → Type 0
  IsWhole content out =
      ((r : Reason) × (out ≡ refusal r))
      ⊎ ((ps : List (List A)) × (out ≡ chunks ps)
          × (joined ps ≡ content)
          × (length ps ≤ max_chunks)
          × (length content ≤ max_program_chars))

  -- With at least one character per piece, a program goes out as a whole, in at most max_chunks
  -- pieces and with at most max_program_chars characters, or one refusal goes instead.
  pub stream-IsWhole :
      (content : List A) → 1 ≤ chunk_size → IsWhole content (stream size budget chunk_size content)
  unfolding stream
  stream-IsWhole content some_chars =
      if_cases (IsWhole content) (ltb max_program_chars (length content))
        (λ long. inl (too_large, refl))
        (λ short.
          let pieces = split_content size budget chunk_size content in
          if_cases (IsWhole content) (ltb max_chunks (length pieces))
            (λ many. inl (too_many_chunks, refl))
            (λ few. inr (
              pieces,
              refl,
              joined-split_content size budget chunk_size content some_chars,
              ground (arith, few),
              ground (arith, short),
            )))

  -- A refusal that was noted is sent again without a look at the file, until a restart forgets it.
  pub prepare-note_refusal :
      (fp : Fingerprint) (reason : Reason) (content : Option (List A)) (s : Sender)
      → known_refusal fp s.refused ≡ none
      → prepare size budget chunk_size fp content (note_refusal fp reason s.generation s)
        ≡ some (refusal reason)
  unfolding prepare note_refusal known_refusal
  prepare-note_refusal fp reason content s fresh = ground (arith, same_print_refl fp)
