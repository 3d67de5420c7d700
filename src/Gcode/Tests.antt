-- ===== src/Gcode/Tests.antt =====
-- agent_gcode.py: the theorems at a short text of numbers for characters, each two bytes long.
use linuxcnc_status_monitor.Common.{
  ℕ, ◌+◌, ◌*◌, ◌≤◌, ◌≡◌, ◌↔◌, refl, true, false, none, List, [], ◌∷◌, length, take, ltb, arith,
  length-take,
}
use linuxcnc_status_monitor.Gcode.Split.{piece_size, split_content}
use linuxcnc_status_monitor.Gcode.Pieces.{
  joined, AllFit, joined-split_content, split_content-AllFit,
}
use linuxcnc_status_monitor.Gcode.Sender.{
  Fingerprint, Sender, send_tries, reset_sender, due, check_and_send, stream, send_packets,
  finish_send, give_up, retry_after_ms,
}
use linuxcnc_status_monitor.Gcode.Resend.{
  restarted, checked, answer_all, stale_send_ignored, accepted, accepted-send_packets, IsWhole,
  stream-IsWhole,
}

abbrev bytes : List ℕ → ℕ
bytes piece = 2 * length piece

abbrev text : List ℕ
text = 7 ∷ 8 ∷ 9 ∷ 10 ∷ 11 ∷ []

split_content_test : split_content bytes 4 10 text ≡ (7 ∷ 8 ∷ []) ∷ (9 ∷ 10 ∷ []) ∷ (11 ∷ []) ∷ []
unfolding split_content piece_size
split_content_test = refl

joined-split_content_example : joined (split_content bytes 4 10 text) ≡ text
joined-split_content_example = joined-split_content bytes 4 10 text (omega arith)

bytes-single : (c : ℕ) → bytes (c ∷ []) ≤ 4
bytes-single c = omega arith

split_content-AllFit_example : AllFit bytes 4 10 (split_content bytes 4 10 text)
split_content-AllFit_example =
    split_content-AllFit bytes 4 10 text (omega arith) (omega arith) bytes-single

bytes-take : (i j : ℕ) → i ≤ j → bytes (take i text) ≤ bytes (take j text)
bytes-take i j h = omega (arith, length-take i text, length-take j text)

stream-IsWhole_example : IsWhole bytes 4 10 text (stream bytes 4 10 text)
stream-IsWhole_example = stream-IsWhole bytes 4 10 text (omega arith)

abbrev print : Fingerprint
print = record { name = "a.ngc"; size = 10; modified = 77 }

abbrev other_print : Fingerprint
other_print = record print { modified = 78 }

abbrev sender : Sender
sender = record {
  resend_ms = 60_000;
  worker_alive = false;
  sent_fingerprint = none;
  sent_at = 0;
  retry_at = 0;
  generation = 4;
  refused = none;
}

stale_send_ignored_example :
    let s' =
      answer_all (checked "/a.ngc" print 1500 ∷ []) (
        reset_sender (answer_all (restarted ∷ []) (check_and_send "/a.ngc" print 1000 sender).1)) in
    (finish_send print 4 true 2000 s' ≡ record s' { worker_alive = false })
    × (give_up 2000 s' ≡ record s' { worker_alive = false; retry_at = 2000 + retry_after_ms })
unfolding check_and_send due
stale_send_ignored_example =
    stale_send_ignored "/a.ngc" print 1000 4 2000 true (restarted ∷ [])
      (checked "/a.ngc" print 1500 ∷ []) sender refl

-- the first call of `send` is refused
accepted-send_packets_example :
    (n : ℕ) × ((send_packets (λ i. ltb 0 i) 2 0).1 ≡ 0 + n)
    × (n ≤ send_tries * 2)
    × (accepted (λ i. ltb 0 i) 0 n ≤ 2)
    × (((send_packets (λ i. ltb 0 i) 2 0).0 ≡ true) ↔ (accepted (λ i. ltb 0 i) 0 n ≡ 2))
accepted-send_packets_example = accepted-send_packets (λ i. ltb 0 i) 2 0
