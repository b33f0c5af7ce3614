-- ===== src/SingleClient/Status.antt =====
-- singleclient.cpp: the calls that do not bring the client into the status `logined`.
use qt_network_protocol.Prelude.{
  ℕ, ◌≡◌, ◌≢◌, refl, sym, ap, ◌∙◌, zero, suc, List, [], ◌∷◌, ◌++◌, Bool, true, ◌&&◌, ◌||◌, ◌==◌,
  arith, some,
}
use qt_network_protocol.HostAddress.{HostAddress}
use qt_network_protocol.SingleClient.{
  ClientStatus, logined, rank, is_waiting, ClientTimer, restore, forget, SingleClient, set_status,
  handle_error, emit_request_error, signal, node_connected, node_disconnected, node_error_occured,
  connect_to_server, disconnect_from_server,
}
use qt_network_protocol.SingleClient.Event.{timer_at, without_timer}

-- A timer that puts back a status puts back `dissconnected` or `connected`.
abbrev pub is_settled : ClientTimer → Bool
is_settled (restore old) = rank old == 0 || rank old == 2
is_settled (forget _) = true

abbrev pub all_settled : List ClientTimer → Bool
all_settled [] = true
all_settled (t ∷ ts) = is_settled t && all_settled ts

pub all_settled-append :
    (ts : List ClientTimer) (t : ClientTimer)
    → all_settled (ts ++ (t ∷ [])) ≡ (all_settled ts && is_settled t)
all_settled-append [] t = ground arith
all_settled-append (u ∷ ts) t = ground (arith, all_settled-append ts t)

pub is_settled-timer_at :
    (k : ℕ) (ts : List ClientTimer) (t : ClientTimer)
    → all_settled ts ≡ true
    → timer_at k ts ≡ some t
    → is_settled t ≡ true
unfolding timer_at
is_settled-timer_at k [] t h e = ground (arith, e)
is_settled-timer_at zero (u ∷ ts) t h e = ground (arith, h, e)
is_settled-timer_at (suc k) (u ∷ ts) t h e = is_settled-timer_at k ts t (ground (arith, h)) e

pub all_settled-without_timer :
    (k : ℕ) (ts : List ClientTimer)
    → all_settled ts ≡ true
    → all_settled (without_timer k ts) ≡ true
unfolding without_timer
all_settled-without_timer k [] h = refl
all_settled-without_timer zero (u ∷ ts) h = ground (arith, h)
all_settled-without_timer (suc k) (u ∷ ts) h =
    ground (arith, h, all_settled-without_timer k ts (ground (arith, h)))

-- The timers stay settled, and the client does not come to be logged in.
pub record Stays (c d : SingleClient) : Type 0 where
  pub settled : all_settled c.timers ≡ true → all_settled d.timers ≡ true
  pub no_login : d.status ≡ logined → c.status ≡ logined

set_status-Stays :
    (s : ClientStatus) (c : SingleClient)
    → s ≢ logined
    → (is_waiting s ≡ true → is_settled (restore c.status) ≡ true)
    → Stays c (set_status s c)
unfolding set_status
set_status-Stays s c n h = record {
  settled = λ k. ground (arith, h, k, all_settled-append c.timers (restore c.status));
  no_login = λ k. ground (arith, n, k);
}

pub Stays-trans : (a b c : SingleClient) → Stays a b → Stays b c → Stays a c
Stays-trans a b c h k = record {
  settled = λ s. k.settled (h.settled s);
  no_login = λ l. h.no_login (k.no_login l);
}

-- The status and the timers are the same.
pub record Same (c d : SingleClient) : Type 0 where
  pub status : d.status ≡ c.status
  pub timers : d.timers ≡ c.timers

pub Same-Stays : (c d : SingleClient) → Same c d → Stays c d
Same-Stays c d h = record {
  settled = λ s. ap all_settled h.timers ∙ s;
  no_login = λ l. sym h.status ∙ l;
}

pub connect_to_server-Stays : (c : SingleClient) → Stays c (connect_to_server c).0
unfolding connect_to_server signal set_status
connect_to_server-Stays c = record {
  settled = λ k. ground (arith, k, all_settled-append c.timers (restore c.status));
  no_login = λ k. ground (arith, k);
}

pub disconnect_from_server-Stays : (c : SingleClient) → Stays c (disconnect_from_server c)
unfolding disconnect_from_server signal
disconnect_from_server-Stays c = record {
  settled = λ k. ground (arith, k, all_settled-append c.timers (restore c.status));
  no_login = λ k. ground (arith, k);
}

pub node_connected-Stays :
    (address : HostAddress) (c : SingleClient) → Stays c (node_connected address c)
unfolding node_connected set_status
node_connected-Stays address c = record {
  settled = λ k. ground (arith, k, all_settled-append c.timers (restore c.status));
  no_login = λ k. ground (arith, k);
}

pub node_disconnected-Stays : (c : SingleClient) → Stays c (node_disconnected c)
unfolding node_disconnected set_status
node_disconnected-Stays c = record {
  settled = λ k. ground (arith, k, all_settled-append c.timers (restore c.status));
  no_login = λ k. ground (arith, k);
}

pub node_error_occured-Stays : (c : SingleClient) → Stays c (node_error_occured c)
unfolding node_error_occured set_status
node_error_occured-Stays c = record {
  settled = λ k. ground (arith, k, all_settled-append c.timers (restore c.status));
  no_login = λ k. ground (arith, k);
}

pub emit_request_error-Stays : (code : ℕ) (c : SingleClient) → Stays c (emit_request_error code c)
unfolding emit_request_error handle_error signal set_status
emit_request_error-Stays code c = record {
  settled = λ k. ground (arith, k, all_settled-append c.timers (restore c.status));
  no_login = λ k. ground (arith, k);
}
