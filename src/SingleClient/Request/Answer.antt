-- ===== src/SingleClient/Request/Answer.antt =====
-- singleclient.cpp: what becomes of the answers and the timers of the client's requests.
use qt_network_protocol.Prelude.{
  inl, inr, IdSet, ℕ, ◌≡◌, refl, Option-cases, List, [], ◌∷◌, true, none, some, lookup, nat_eq,
  ==_iff, lookup-insert, lookup-remove, arith,
}
use qt_network_protocol.Node.Parse.{ParserResult, not_processed}
use qt_network_protocol.SingleClient.{
  Outgoing, log_in, sign_up, log_out, delete_object, subscribe_to, unsubscribe_from, custom,
  subscribe_list, forget, SingleClient, Incoming, subscriptions, fire, parse_package,
}
use qt_network_protocol.SingleClient.Request.{
  Wire, sign_package_with_token, send_data, rest_request, sync_sybscribe_list_with_server,
}

-- A signed request is signed again to the same.
sign_package_with_token_again :
    (now : ℕ) (request signed : Outgoing) (c : SingleClient)
    → sign_package_with_token now request c ≡ some signed
    → sign_package_with_token now signed c ≡ some signed
unfolding sign_package_with_token
sign_package_with_token_again now (delete_object id token) signed c e = ground (arith, e)
sign_package_with_token_again now (log_in m) signed c e = ground (arith, e)
sign_package_with_token_again now (sign_up m) signed c e = ground (arith, e)
sign_package_with_token_again now (log_out m) signed c e = ground (arith, e)
sign_package_with_token_again now (subscribe_to id) signed c e = ground (arith, e)
sign_package_with_token_again now (unsubscribe_from id) signed c e = ground (arith, e)
sign_package_with_token_again now subscribe_list signed c e = ground (arith, e)
sign_package_with_token_again now (custom id) signed c e = ground (arith, e)

module _ (wire : Wire) (now : ℕ) where
  -- Of a request that was sent, the handler waits under the hash of the package.
  rest_request-lookup :
      (request : Outgoing) (handler : ℕ) (c : SingleClient)
      → (rest_request wire now request handler c).1 ≡ true
      → (lookup
            (send_data wire now request c).1
            (rest_request wire now request handler c).0.handlers_cache
          ≡ some handler)
        × ((rest_request wire now request handler c).0.handled ≡ c.handled)
  unfolding rest_request send_data
  rest_request-lookup request handler c done =
      elim (Option-cases (sign_package_with_token now request c)) [
        | inl e ↦ absurd (ground (arith, e, done))
        | inr (signed, e) ↦
            let again = sign_package_with_token_again now request signed c e in
            let hash = wire.sends c.sent c.real_server_address signed in
            ground (
              arith,
              e,
              again,
              done,
              lookup-insert hash hash handler c.handlers_cache,
              ==_iff hash hash,
            )
      ]

  -- The packages that a client gets, each with the result of DataBaseNode::parsePackage and the hash
  -- of the request that it answers.
  unfoldable pub receive : List (ParserResult × Incoming × ℕ) → SingleClient → SingleClient
  receive [] c = c
  receive ((result, pkg, trigger_hash) ∷ rest) c =
      receive rest (parse_package now result pkg trigger_hash c).0

  -- The handler given for the list of the subscriptions is not called by the valid answer to the
  -- request, which sets the subscriptions, whichever hash it has; it waits on, and the timer of the
  -- request drops it.
  pub sync_sybscribe_list_handler :
      (handler : ℕ) (valid_ids : IdSet) (trigger_hash : ℕ) (c : SingleClient)
      → (sync_sybscribe_list_with_server wire now handler c).1 ≡ true
      → let hash = (send_data wire now subscribe_list c).1 in
        let answered =
          (parse_package now not_processed
            (subscriptions true valid_ids)
            trigger_hash
            (sync_sybscribe_list_with_server wire now handler c).0).0 in
        (answered.subscribes ≡ valid_ids)
        × (answered.handled ≡ c.handled)
        × (lookup hash answered.handlers_cache ≡ some handler)
        × ((fire (forget hash) answered).handled ≡ c.handled)
        × (lookup hash (fire (forget hash) answered).handlers_cache ≡ none)
  unfolding parse_package sync_sybscribe_list_with_server fire
  sync_sybscribe_list_handler handler valid_ids trigger_hash c done =
      let asked = (rest_request wire now subscribe_list handler c).0 in
      let hash = (send_data wire now subscribe_list c).1 in
      let h = rest_request-lookup subscribe_list handler c done in
      (
        refl,
        h.1,
        h.0,
        h.1,
        ground (arith, lookup-remove hash hash asked.handlers_cache, ==_iff hash hash),
      )
