-- ===== src/Rsp/Repeat/Whole.antt =====
-- co/rspConnection.cpp: _repeatData, called until a request is done.
use collage.Prelude.{
  ℕ, zero, suc, ◌+◌, ◌-◌, ◌%◌, ◌≤◌, ◌<◌, ◌≡◌, sym, ap, ◌∙◌, ◌≢◌, some, List, [], ◌∷◌, ◌++◌, map,
  append_assoc, arith, ◌==◌, if_true, if_false, length, take, drop, low,
}
use mathlib.Core.Option.{some-injective}
use collage.Rsp.State.{Data, Nack, data_packet, Listener, u16_mod}
use collage.Rsp.Send.Finished.{IsNumbered}
use collage.Rsp.Repeat.{next_request, packet_at, repeat_data}
use collage.Rsp.Repeat.Rounds.{repeat_data-sends}

take-drop-packet_at :
    (i k : ℕ) (ds : List Data) (d : Data)
    → packet_at i ds ≡ some d
    → take (suc k) (drop i ds) ≡ d ∷ take k (drop (suc i) ds)
take-drop-packet_at i k [] d h = absurd (ground arith)
take-drop-packet_at zero k (e ∷ ds) d h = ap (λ x. x ∷ take k ds) (some-injective e d h)
take-drop-packet_at (suc i) k (e ∷ ds) d h = take-drop-packet_at i k ds d h

next_request-done : (n : Nack) (q : List Nack) → n.first ≡ n.last → next_request n q ≡ q
next_request-done n q h = if_true {b = n.first == n.last} _ _ (ground (arith, h))

next_request-more :
    (n : Nack) (q : List Nack)
    → n.first ≢ n.last
    → next_request n q ≡ record n { first = (n.first + 1) % u16_mod } ∷ q
next_request-more n q h = if_false {b = n.first == n.last} _ _ (ground (arith, h))

-- _repeatData, n times
abbrev pub repeat_times : ℕ → Listener → Listener
repeat_times zero l = l
repeat_times (suc n) l = repeat_times n (repeat_data l)

-- A request for the packets from m to m + k, all of which are kept, is served by k + 1 calls: they
-- send these packets in order, and leave the requests behind it.
pub repeat_times-sends :
    (k : ℕ) (l : Listener) (n : Nack) (q : List Nack) (b m : ℕ)
    → l.repeat_queue ≡ n ∷ q
    → IsNumbered b l.write_buffers
    → l.sequence ≡ (b + length l.write_buffers) % u16_mod
    → length l.write_buffers < u16_mod
    → n.first ≡ m % u16_mod
    → n.last ≡ (m + k) % u16_mod
    → b ≤ m
    → m + k < b + length l.write_buffers
    → ((repeat_times (suc k) l).sent
        ≡ l.sent ++ map data_packet (take (suc k) (drop (m - b) l.write_buffers)))
      × ((repeat_times (suc k) l).repeat_queue ≡ q)
repeat_times-sends zero l n q b m queue numbered at room first last low high =
    let (d, found, _, run) =
      repeat_data-sends l n q b m queue numbered at room first low (omega (arith, high)) in
    (
      ap (λ r. r.sent) {x = repeat_data l} run
          ∙ ap (λ ds. l.sent ++ map data_packet ds)
              (sym (take-drop-packet_at (m - b) 0 l.write_buffers d found)),
      ap (λ r. r.repeat_queue) {x = repeat_data l} run
          ∙ next_request-done n q (omega (arith, first, last)),
    )
repeat_times-sends (suc k) l n q b m queue numbered at room first last low high =
    let (d, found, _, run) =
      repeat_data-sends l n q b m queue numbered at room first low (omega (arith, high)) in
    let differ : n.first ≢ n.last = omega (arith, first, last, room, high, low) in
    let moved : Listener = record l {
      timeouts = 0;
      repeat_queue = next_request n q;
      sent = l.sent ++ data_packet d ∷ [];
    } in
    let (sent, rest) =
      repeat_times-sends k moved (record n { first = (n.first + 1) % u16_mod }) q b (m + 1)
        (next_request-more n q differ) numbered at room (omega (arith, first)) (omega (arith, last))
        (omega (arith, low)) (omega (arith, high)) in
    (
      ap (λ r. (repeat_times (suc k) r).sent) {x = repeat_data l} run
          ∙ sent
          ∙ append_assoc l.sent (data_packet d ∷ []) _
          ∙ ap
              (λ i.
                l.sent ++ data_packet d ∷ map data_packet (take (suc k) (drop i l.write_buffers)))
              {x = m + 1 - b} {y = suc (m - b)} (omega (arith, low))
          ∙ ap (λ ds. l.sent ++ map data_packet ds)
              (sym (take-drop-packet_at (m - b) (suc k) l.write_buffers d found)),
      ap (λ r. (repeat_times (suc k) r).repeat_queue) {x = repeat_data l} run ∙ rest,
    )
