-- ===== src/Quotes/Subscriptions.antt =====
-- src/polymarket/ws_fixed_token_feed.cpp: what the feed is subscribed to after each action of
-- `switch_token` and of the socket.
use mathlib.Core.Path.{subst}
use prediction_market_arbitr.Base.{
  String, Bool, true, false, ◌≡◌, ◌≢◌, refl, ap, ◌∙◌, sym, ◌⊎◌, inl, inr, if_intro, List, [], ◌∷◌,
  same, same_refl, eq_of_same, is_empty, arith, Bool-cases,
}
use prediction_market_arbitr.Quotes.Fixed.{FixedFeed, start, opened, dropped}
use prediction_market_arbitr.Quotes.Following.{not_empty, empty}
use prediction_market_arbitr.Quotes.Socket
use prediction_market_arbitr.Quotes.Socket.{
  Socket, Frame, subscribe, unsubscribe, send, set_subscription_snapshot, connect, disconnect,
  subscribed, send_snapshot_subscribe_if_any, add_id,
}
use prediction_market_arbitr.Quotes.Switching.{
  Call, no_call, left, named, aimed, replaces, leave_token, name_token, aim_snapshot, ask_token,
}

-- One of the tokens.
abbrev pub Has : String → List String → Type 0
Has token [] = ⊥
Has token (x ∷ xs) = (token ≡ x) ⊎ Has token xs

-- The subscriptions of a connection, by where the call is. If the connection did not open inside a
-- call, between its unsubscription and its snapshot, then outside any call there is one, to the feed's
-- token; if it did, that one is among them.
abbrev pub Subscriptions : Call → (overlapped : Bool) → (token : String) → List String → Type 0
Subscriptions no_call false token subs = subs ≡ token ∷ []
Subscriptions no_call true token subs = Has token subs
Subscriptions (left new) false token subs = subs ≡ []
Subscriptions (named new) false token subs = subs ≡ []
Subscriptions (aimed new) false token subs = (subs ≡ []) ⊎ (subs ≡ new ∷ [])
Subscriptions _ true token subs = Unit

-- What the next connection subscribes to.
abbrev pub Snapshot : Call → (token : String) → List String → Type 0
Snapshot no_call token ids = ids ≡ token ∷ []
Snapshot (left new) token ids = ids ≡ token ∷ []
Snapshot (named new) token ids = (token ≡ new) × ((old : String) × (ids ≡ old ∷ []))
Snapshot (aimed new) token ids = (token ≡ new) × (ids ≡ new ∷ [])

abbrev pub Named : Call → Type 0
Named no_call = Unit
Named (left new) = new ≢ ""
Named (named new) = new ≢ ""
Named (aimed new) = new ≢ ""

pub record Follows {W : Type 0} (s : FixedFeed W) (call : Call) (overlapped : Bool) : Type 0 where
  pub running : s.running ≡ true
  pub socket_runs : s.socket.running ≡ true
  pub token : s.token_id ≢ ""
  pub target : Named call
  pub snapshot : Snapshot call s.token_id s.socket.snapshot_ids
  pub live :
      (s.socket.connected ≡ false)
      ⊎ Subscriptions call overlapped s.token_id (subscribed s.socket.sent)

-- A feed that is not running, with its socket closed, or one that follows its token.
pub data Steady {W : Type 0} (s : FixedFeed W) (call : Call) (overlapped : Bool) : Type 0 where
  idle :
      call ≡ no_call
      → s.running ≡ false
      → s.socket.running ≡ false
      → s.socket.connected ≡ false
      → Steady s call overlapped
  following : Follows s call overlapped → Steady s call overlapped

Has-add_id : (token : String) (subs : List String) → Has token (add_id token subs)
Has-add_id token [] = inl refl
Has-add_id token (x ∷ xs) = elim (Bool-cases (same token x)) [
  | inl e ↦ rw (add_id, e) (inl (eq_of_same token x e))
  | inr n ↦ rw (add_id, n) (inr (Has-add_id token xs))
]

abbrev Live : Call → Bool → String → Socket → Type 0
Live call o token k = (k.connected ≡ false) ⊎ Subscriptions call o token (subscribed k.sent)

send-same :
    (f : Frame) (k : Socket)
    → ((send f k).running ≡ k.running) × ((send f k).snapshot_ids ≡ k.snapshot_ids)
unfolding send
send-same f k = ground arith

left-Live :
    (new token : String) (o : Bool) (k : Socket)
    → Live no_call o token k
    → Live (left new) o token (send (unsubscribe (token ∷ [])) k)
unfolding send subscribed
left-Live new token true k h = inr tt
left-Live new token false k h = ground (arith, h, same_refl token)

asked-Live :
    (token : String) (o : Bool) (k : Socket)
    → Live (aimed token) o token k
    → Live no_call o token (send (subscribe (token ∷ [])) k)
unfolding send subscribed
asked-Live token true k h = ground (arith, Has-add_id token (subscribed k.sent))
asked-Live token false k h = ground (arith, h, same_refl token)

opened-Live :
    (call : Call) (o : Bool) (token : String) (k : Socket)
    → Snapshot call token k.snapshot_ids
    → Live call (replaces call) token (connect k)
unfolding connect send_snapshot_subscribe_if_any send subscribed
opened-Live no_call o token k h = ground (arith, h)
opened-Live (left new) o token k h = inr tt
opened-Live (named new) o token k h = inr tt
opened-Live (aimed new) o token k h = ground (arith, h.1)

connect-same :
    (k : Socket) → ((connect k).running ≡ k.running) × ((connect k).snapshot_ids ≡ k.snapshot_ids)
unfolding connect send_snapshot_subscribe_if_any send
connect-same k = ground arith

module _ {W : Type 0} where
  pub leaves-Follows :
      (token : String) (s : FixedFeed W) (o : Bool)
      → is_empty token ≡ false
      → Follows s no_call o
      → Follows (leave_token s) (left token) o
  unfolding leave_token
  leaves-Follows token s o n h =
      let k = send (unsubscribe (s.token_id ∷ [])) s.socket in
      let same = send-same (unsubscribe (s.token_id ∷ [])) s.socket in
      if_intro (λ (k : Socket). Follows (record s { socket = k }) (left token) o)
        (is_empty s.token_id) _ _ (λ e. absurd (h.token (empty s.token_id e)))
        (λ _. record {
          running = h.running;
          socket_runs = same.0 ∙ h.socket_runs;
          token = h.token;
          target = not_empty token n;
          snapshot = same.1 ∙ h.snapshot;
          live = left-Live token s.token_id o s.socket h.live;
        })

  pub names-Follows :
      (token : String) (s : FixedFeed W) (o : Bool)
      → Follows s (left token) o
      → Follows (name_token token s) (named token) o
  unfolding name_token
  names-Follows token s true h = record {
    running = h.running;
    socket_runs = h.socket_runs;
    token = h.target;
    target = h.target;
    snapshot = (refl, (s.token_id, h.snapshot));
    live = h.live;
  }
  names-Follows token s false h = record {
    running = h.running;
    socket_runs = h.socket_runs;
    token = h.target;
    target = h.target;
    snapshot = (refl, (s.token_id, h.snapshot));
    live = h.live;
  }

  pub aims-Follows :
      (token : String) (s : FixedFeed W) (o : Bool)
      → Follows s (named token) o
      → Follows (aim_snapshot token s) (aimed token) o
  unfolding aim_snapshot set_subscription_snapshot
  aims-Follows token s o h = record {
    running = h.running;
    socket_runs = h.socket_runs;
    token = h.token;
    target = h.target;
    snapshot = (h.snapshot.0, refl);
    live = elim h.live [ inl off ↦ inl off | inr on ↦ inr (emptied o on) ];
  }
    where
      emptied :
          (b : Bool)
          → Subscriptions (named token) b s.token_id (subscribed s.socket.sent)
          → Subscriptions (aimed token) b s.token_id (subscribed s.socket.sent)
      emptied true k = tt
      emptied false k = inl k

  pub asks-Follows :
      (token : String) (s : FixedFeed W) (o : Bool)
      → Follows s (aimed token) o
      → Follows (ask_token token s) no_call o
  unfolding ask_token
  asks-Follows token s o h =
      let same = send-same (subscribe (token ∷ [])) s.socket in
      record {
        running = h.running;
        socket_runs = same.0 ∙ h.socket_runs;
        token = h.token;
        target = tt;
        snapshot = same.1 ∙ h.snapshot.1 ∙ ap (λ t. t ∷ []) (sym h.snapshot.0);
        live =
            subst (λ t. Live no_call o t (send (subscribe (token ∷ [])) s.socket))
              (sym h.snapshot.0)
              (asked-Live token o s.socket
                (subst (λ t. Live (aimed token) o t s.socket) h.snapshot.0 h.live));
      }

  pub opened-Follows :
      (s : FixedFeed W) (call : Call) (o : Bool)
      → Follows s call o
      → Follows (opened s) call (replaces call)
  unfolding opened
  opened-Follows s call o h =
      let same = connect-same s.socket in
      record {
        running = h.running;
        socket_runs = same.0 ∙ h.socket_runs;
        token = h.token;
        target = h.target;
        snapshot = subst (λ ids. Snapshot call s.token_id ids) (sym same.1) h.snapshot;
        live = opened-Live call o s.token_id s.socket h.snapshot;
      }

  pub dropped-Follows :
      (s : FixedFeed W) (call : Call) (o : Bool) → Follows s call o → Follows (dropped s) call false
  unfolding dropped disconnect
  dropped-Follows s call o h = record {
    running = h.running;
    socket_runs = h.socket_runs;
    token = h.token;
    target = h.target;
    snapshot = h.snapshot;
    live = inl refl;
  }

  pub started-Follows :
      (s : FixedFeed W) (o : Bool) (token : String)
      → s.socket.running ≡ false
      → s.socket.connected ≡ false
      → s.running ≡ false
      → Steady (start token s).0 no_call o
  unfolding start Socket.start set_subscription_snapshot
  started-Follows s o token a b r =
      if_intro (λ (p : FixedFeed W × Bool). Steady p.0 no_call o) s.running _ _
        (λ _. idle refl r a b)
        λ _.
          if_intro (λ (p : FixedFeed W × Bool). Steady p.0 no_call o) (is_empty token) _ _
            (λ _. idle refl r a b)
            λ n. following (record {
              running = refl;
              socket_runs = ground (arith, a);
              token = not_empty token n;
              target = tt;
              snapshot = ground arith;
              live = inl (ground (arith, b));
            })
