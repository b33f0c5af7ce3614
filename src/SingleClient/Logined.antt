-- ===== src/SingleClient/Logined.antt =====
-- singleclient.cpp: when the client is logged in, over any sequence of events.
use qt_network_protocol.Prelude.{
  ℕ, ◌≡◌, ◌⊎◌, inl, inr, refl, ap, Option-cases, Bool-cases, List, [], ◌∷◌, ◌++◌, true, ◌&&◌, arith,
}
use qt_network_protocol.Database.Token.{token_is_valid}
use qt_network_protocol.Node.Parse.{ParserResult, error, not_processed, processed}
use qt_network_protocol.SingleClient.{
  logined, Member, member_is_valid, Outgoing, ClientTimer, restore, forget, SingleClient,
  new_client, set_status, handle_error, emit_request_error, signal, fire, reset_user, Incoming,
  user_member, subscriptions, other_package, handle_rest_request, parse_package,
}
use qt_network_protocol.SingleClient.Request.{
  Wire, send_data, sign_package_with_token, p_login, p_signup, begin_login, login, login_member,
  signup, logout, remove_user, subscribe, unsubscribe, rest_request,
}
use qt_network_protocol.SingleClient.Event.{
  Event, connects, disconnects, logs_out, removes_user, logs_in, signs_up, logs_in_as, subscribes,
  unsubscribes, requests, node_connects, node_disconnects, node_fails, errors, receives, fires,
  brings_member, timer_at, without_timer, step, run, any_brings_member,
}
use qt_network_protocol.SingleClient.Status.{
  is_settled, all_settled, all_settled-append, is_settled-timer_at, all_settled-without_timer,
  Stays, Stays-trans, Same, Same-Stays, connect_to_server-Stays, disconnect_from_server-Stays,
  node_connected-Stays, node_disconnected-Stays, node_error_occured-Stays, emit_request_error-Stays,
}

module _ (wire : Wire) (now : ℕ) where
  logout-Stays : (c : SingleClient) → Stays c (logout wire now c).0
  unfolding logout send_data reset_user set_status
  logout-Stays c = record {
    settled = λ k. ground (arith, k, all_settled-append c.timers (restore c.status));
    no_login = λ k. ground (arith, k);
  }

  remove_user-Stays : (c : SingleClient) → Stays c (remove_user wire now c).0
  unfolding remove_user send_data
  remove_user-Stays c = record {
    settled = λ k. ground (arith, k, all_settled-append c.timers (restore c.status));
    no_login = λ k. ground (arith, k);
  }

  login-Stays :
      (user : ℕ) (password : List ℕ) (c : SingleClient) → Stays c (login wire now user password c).0
  unfolding login p_login send_data begin_login set_status
  login-Stays user password c = record {
    settled = λ k. ground (arith, k, all_settled-append c.timers (restore c.status));
    no_login = λ k. ground (arith, k);
  }

  signup-Stays :
      (user : ℕ) (password : List ℕ) (c : SingleClient)
      → Stays c (signup wire now user password c).0
  unfolding signup p_signup send_data begin_login set_status
  signup-Stays user password c = record {
    settled = λ k. ground (arith, k, all_settled-append c.timers (restore c.status));
    no_login = λ k. ground (arith, k);
  }

  subscribe-Stays : (id : ℕ) (c : SingleClient) → Stays c (subscribe wire now id c).0
  unfolding subscribe send_data
  subscribe-Stays id c = record {
    settled = λ k. ground (arith, k, all_settled-append c.timers (restore c.status));
    no_login = λ k. ground (arith, k);
  }

  unsubscribe-Stays : (id : ℕ) (c : SingleClient) → Stays c (unsubscribe wire now id c).0
  unfolding unsubscribe send_data
  unsubscribe-Stays id c = record {
    settled = λ k. ground (arith, k, all_settled-append c.timers (restore c.status));
    no_login = λ k. ground (arith, k);
  }

  rest_request-Stays :
      (r : Outgoing) (handler : ℕ) (c : SingleClient)
      → Stays c (rest_request wire now r handler c).0
  unfolding rest_request send_data
  rest_request-Stays r handler c = elim (Option-cases (sign_package_with_token now r c)) [
    | inl e ↦ record { settled = λ k. ground (arith, e, k); no_login = λ k. ground (arith, e, k) }
    | inr (signed, e) ↦
        let kept : Same c (send_data wire now signed c).0 = record {
          status = ground arith;
          timers = ground arith;
        } in
        let waits = forget (send_data wire now signed c).1 in
        record {
          settled = λ k. ground (
            arith,
            e,
            k,
            kept.timers,
            ap all_settled kept.timers,
            ap (λ ts. all_settled (ts ++ (waits ∷ []))) kept.timers,
            all_settled-append c.timers waits,
          );
          no_login = λ k. ground (arith, e, k, kept.status);
        }
  ]

  login_member-Stays : (m : Member) (c : SingleClient) → Stays c (login_member wire now m c).0
  unfolding login_member
  login_member-Stays m c =
      let d = record c { member = m } in
      let same : Same c d = record { status = refl; timers = refl } in
      let h = login-Stays 0 [] c in
      let k =
        Stays-trans c d (login wire now 0 [] d).0 (Same-Stays c d same) (login-Stays 0 [] d) in
      record {
        settled = λ s. ground (arith, s, h.settled, k.settled);
        no_login = λ s. ground (arith, s, h.no_login, k.no_login);
      }

  fire-Stays : (t : ClientTimer) (c : SingleClient) → is_settled t ≡ true → Stays c (fire t c)
  unfolding fire emit_request_error handle_error signal set_status
  fire-Stays (restore old) c h = record {
    settled = λ k. ground (arith, h, k);
    no_login = λ k. ground (arith, h, k);
  }
  fire-Stays (forget hash) c h = record { settled = λ k. k; no_login = λ k. k }

  fires-Stays :
      (k : ℕ) (c : SingleClient) → all_settled c.timers ≡ true → Stays c (step wire now (fires k) c)
  unfolding step
  fires-Stays k c h = elim (Option-cases (timer_at k c.timers)) [
    | inl e ↦ record { settled = λ s. ground (arith, e, s); no_login = λ s. ground (arith, e, s) }
    | inr (t, e) ↦
        let rest = record c { timers = without_timer k c.timers } in
        let fired = fire-Stays t rest (is_settled-timer_at k c.timers t h e) in
        record {
          settled =
              λ s. ground (arith, e, s, fired.settled (all_settled-without_timer k c.timers s));
          no_login = λ s. ground (arith, e, s, fired.no_login);
        }
  ]

  receives-Stays :
      (parent : ParserResult) (pkg : Incoming) (trigger_hash : ℕ) (c : SingleClient)
      → (brings_member now (receives parent pkg trigger_hash) ≡ true)
        ⊎ Stays c (parse_package now parent pkg trigger_hash c).0
  unfolding parse_package handle_rest_request
  receives-Stays not_processed (user_member m) trigger_hash c =
      elim (Bool-cases (member_is_valid m && token_is_valid now m.token)) [
        | inl e ↦ inl e
        | inr e ↦
            inr
              (record { settled = λ k. ground (arith, e, k); no_login = λ k. ground (arith, e, k) })
      ]
  receives-Stays not_processed (subscriptions valid ids) trigger_hash c =
      inr (record { settled = λ k. ground (arith, k); no_login = λ k. ground (arith, k) })
  receives-Stays not_processed other_package trigger_hash c =
      inr (record { settled = λ k. ground (arith, k); no_login = λ k. ground (arith, k) })
  receives-Stays error pkg trigger_hash c = inr (record { settled = λ k. k; no_login = λ k. k })
  receives-Stays processed pkg trigger_hash c = inr (record { settled = λ k. k; no_login = λ k. k })

  -- Every event but the receipt of a valid member is a step in which the client does not come to be
  -- logged in.
  step-Stays :
      (e : Event) (c : SingleClient)
      → all_settled c.timers ≡ true
      → (brings_member now e ≡ true) ⊎ Stays c (step wire now e c)
  unfolding step
  step-Stays connects c h = inr (connect_to_server-Stays c)
  step-Stays disconnects c h = inr (disconnect_from_server-Stays c)
  step-Stays logs_out c h = inr (logout-Stays c)
  step-Stays removes_user c h = inr (remove_user-Stays c)
  step-Stays (logs_in user password) c h = inr (login-Stays user password c)
  step-Stays (signs_up user password) c h = inr (signup-Stays user password c)
  step-Stays (logs_in_as m) c h = inr (login_member-Stays m c)
  step-Stays (subscribes id) c h = inr (subscribe-Stays id c)
  step-Stays (unsubscribes id) c h = inr (unsubscribe-Stays id c)
  step-Stays (requests request handler) c h = inr (rest_request-Stays request handler c)
  step-Stays (node_connects address) c h = inr (node_connected-Stays address c)
  step-Stays node_disconnects c h = inr (node_disconnected-Stays c)
  step-Stays node_fails c h = inr (node_error_occured-Stays c)
  step-Stays (errors code) c h = inr (emit_request_error-Stays code c)
  step-Stays (receives parent pkg trigger_hash) c h = receives-Stays parent pkg trigger_hash c
  step-Stays (fires k) c h = inr (fires-Stays k c h)

  receives-settled :
      (parent : ParserResult) (pkg : Incoming) (trigger_hash : ℕ) (c : SingleClient)
      → all_settled c.timers ≡ true
      → all_settled (parse_package now parent pkg trigger_hash c).0.timers ≡ true
  unfolding parse_package handle_rest_request signal set_status
  receives-settled not_processed (user_member m) trigger_hash c h = ground (arith, h)
  receives-settled not_processed (subscriptions valid ids) trigger_hash c h = ground (arith, h)
  receives-settled not_processed other_package trigger_hash c h = ground (arith, h)
  receives-settled error pkg trigger_hash c h = h
  receives-settled processed pkg trigger_hash c h = h

  brings_member-settled :
      (e : Event) (c : SingleClient)
      → brings_member now e ≡ true
      → all_settled c.timers ≡ true
      → all_settled (step wire now e c).timers ≡ true
  unfolding step
  brings_member-settled (receives parent pkg trigger_hash) c b h =
      receives-settled parent pkg trigger_hash c h
  brings_member-settled e c b h = ground (arith, b)

  step-settled :
      (e : Event) (c : SingleClient)
      → all_settled c.timers ≡ true
      → all_settled (step wire now e c).timers ≡ true
  step-settled e c h = elim (step-Stays e c h) [
    | inl b ↦ brings_member-settled e c b h
    | inr stays ↦ stays.settled h
  ]

  run-logined_or :
      (es : List Event) (c : SingleClient)
      → all_settled c.timers ≡ true
      → (run wire now es c).status ≡ logined
      → (c.status ≡ logined) ⊎ (any_brings_member now es ≡ true)
  unfolding run
  run-logined_or [] c h l = inl l
  run-logined_or (e ∷ es) c h l =
      elim (run-logined_or es (step wire now e c) (step-settled e c h) l) [
        | inr later ↦ inr (ground (arith, later))
        | inl here ↦ elim (step-Stays e c h) [
          | inl b ↦ inr (ground (arith, b))
          | inr stays ↦ inl (stays.no_login here)
        ]
      ]

-- Whatever the user calls, the network reports and the timers do, in any order: a client that is
-- logged in was sent, since it was made, a valid member with a valid token.
pub run-logined :
    (wire : Wire) (now : ℕ) (es : List Event)
    → (run wire now es new_client).status ≡ logined
    → any_brings_member now es ≡ true
run-logined wire now es l = elim (run-logined_or wire now es new_client refl l) [
  | inl e ↦ ground (arith, e)
  | inr b ↦ b
]
