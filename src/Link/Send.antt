-- ===== src/Link/Send.antt =====
-- A send that returned has put its message at the end of the log, and changed little else.
use flipperzero_mcp.Base.{arith, ◌++◌, ◌∷◌, [], List, ◌≡◌, Bytes}
use flipperzero_mcp.Link.{pass_time, ok, refused, delivered, Delivery, Link, deliver, send}

-- Nothing but the time, the sends to come and the log has changed.
abbrev pub after_send : Link → Bytes → Link → Link
after_send w message u = record w {
  clock = u.clock;
  outgoing = u.outgoing;
  sent = w.sent ++ message ∷ [];
}

deliver_returned :
    (s : List Delivery) (message : Bytes) (w : Link) {u : Link}
    → deliver s message w ≡ (ok tt, u)
    → u ≡ after_send w message u
unfolding deliver pass_time
deliver_returned [] message w h = ground arith
deliver_returned (delivered dt ∷ rest) message w h = ground arith
deliver_returned (refused e ∷ rest) message w h = cc

pub send_returned :
    (message : Bytes) (w : Link) {u : Link}
    → send message w ≡ (ok tt, u)
    → u ≡ after_send w message u
unfolding send
send_returned message w h = deliver_returned w.outgoing message w h
