-- ===== src/Wire/Session/Beats.antt =====
-- The heartbeats of a session that goes on.
use galaxy_integration_steam.Prelude.{
  ℕ, zero, suc, ◌+◌, ◌*◌, ◌-◌, ◌<◌, ◌≡◌, refl, ap, ◌∙◌, sym, Bool, true, List, [], ◌∷◌, ◌++◌, none,
  some, arith, if◌then◌else◌, append_assoc, append-nil,
}
use galaxy_integration_steam.Auth.EResult
use galaxy_integration_steam.Wire.Requests.{Request, heart_beat}
use galaxy_integration_steam.Wire.Session.{
  Heartbeat, asleep, ProtobufClient, beat, beat_all, second, Event, logged_on, second_passes, step,
  run, held, process_client_log_on_response,
}

abbrev pub seconds : ℕ → List Event
seconds zero = []
seconds (suc n) = second_passes ∷ seconds n

-- The heartbeats of so many intervals after the start.
abbrev pub beats : ℕ → ℕ → ℕ → List (ℕ × Request)
beats start interval zero = []
beats start interval (suc n) = (start + interval, heart_beat) ∷ beats (start + interval) interval n

run-append : (es es' : List Event) (c : ProtobufClient) → run (es ++ es') c ≡ run es' (run es c)
unfolding run
run-append [] es' c = refl
run-append (e ∷ es) es' c = run-append es es' (step e c)

seconds-add : (m n : ℕ) → seconds (m + n) ≡ seconds m ++ seconds n
seconds-add zero n = ap seconds (omega arith)
seconds-add (suc m) n = ap seconds (suc_add m n) ∙ ap (λ es. second_passes ∷ es) (seconds-add m n)
  where
    suc_add : (m n : ℕ) → suc m + n ≡ suc (m + n)
    suc_add m n = omega arith

-- The client with one task, so many seconds before its next heartbeat.
module _ (c : ProtobufClient) (interval : ℕ) where
  abbrev alive : ℕ → ℕ → List (ℕ × Request) → ProtobufClient
  alive left t sent = record c {
    heartbeat_task = some (asleep interval left);
    left_behind = [];
    socket_open = true;
    now = t;
    sent = sent;
  }

  second-asleep :
      (l t : ℕ) (sent : List (ℕ × Request))
      → second (alive (suc (suc l)) t sent) ≡ alive (suc l) (suc t) sent
  unfolding second beat beat_all
  second-asleep l t sent = refl

  run-seconds-alive :
      (n left t : ℕ) (sent : List (ℕ × Request))
      → run (seconds n) (alive (suc left + n) t sent) ≡ alive (suc left) (t + n) sent
  unfolding run step second beat beat_all
  run-seconds-alive zero left t sent =
      ap (λ l. alive l t sent) (add_zero (suc left))
      ∙ ap (λ u. alive (suc left) u sent) (sym (add_zero t))
    where
      add_zero : (n : ℕ) → n + 0 ≡ n
      add_zero n = omega arith
  run-seconds-alive (suc n) left t sent =
      ap (λ l. run (seconds (suc n)) (alive l t sent)) (add_suc left n)
      ∙ ap (λ l. run (seconds n) (alive l (suc t) sent)) (suc_add left n)
      ∙ run-seconds-alive n left (suc t) sent
      ∙ ap (λ u. alive (suc left) u sent) (suc_out t n)
    where
      add_suc : (left n : ℕ) → suc left + suc n ≡ suc (suc (left + n))
      add_suc left n = omega arith

      suc_add : (left n : ℕ) → suc (left + n) ≡ suc left + n
      suc_add left n = omega arith

      suc_out : (t n : ℕ) → suc t + n ≡ t + suc n
      suc_out t n = omega arith

-- An interval with its heartbeat at the end, and any number of them.
module _ (c : ProtobufClient) (k : ℕ) where
  abbrev fresh : ℕ → List (ℕ × Request) → ProtobufClient
  fresh t sent = alive c (suc k) (suc k) t sent

  run-interval :
      (t : ℕ) (sent : List (ℕ × Request))
      → run (seconds (suc k)) (fresh t sent)
        ≡ fresh (t + suc k) (sent ++ ((t + suc k, heart_beat) ∷ []))
  unfolding run step second beat beat_all
  run-interval t sent =
      ap (λ n. run (seconds n) (fresh t sent)) (one_last k)
      ∙ ap (λ es. run es (fresh t sent)) (seconds-add k 1)
      ∙ run-append (seconds k) (seconds 1) (fresh t sent)
      ∙ ap (λ l. run (seconds 1) (run (seconds k) (alive c (suc k) l t sent))) (one_first k)
      ∙ ap (run (seconds 1)) (run-seconds-alive c (suc k) k 0 t sent)
      ∙ ap (λ u. fresh u (sent ++ ((u, heart_beat) ∷ []))) (add_suc t k)
    where
      one_last : (k : ℕ) → suc k ≡ k + 1
      one_last k = omega arith

      one_first : (k : ℕ) → suc k ≡ suc 0 + k
      one_first k = omega arith

      add_suc : (t k : ℕ) → suc (t + k) ≡ t + suc k
      add_suc t k = omega arith

  run-intervals :
      (m t : ℕ) (sent : List (ℕ × Request))
      → run (seconds (m * suc k)) (fresh t sent) ≡ fresh (t + m * suc k) (sent ++ beats t (suc k) m)
  unfolding run
  run-intervals zero t sent =
      ap (λ n. run (seconds n) (fresh t sent)) (none_left k)
      ∙ ap (λ l. fresh t l) (sym (append-nil sent))
      ∙ ap (λ u. fresh u (sent ++ [])) (still t k)
    where
      none_left : (k : ℕ) → zero * suc k ≡ 0
      none_left k = omega arith

      still : (t k : ℕ) → t ≡ t + zero * suc k
      still t k = omega arith
  run-intervals (suc m) t sent =
      ap (λ n. run (seconds n) (fresh t sent)) (one_first m k)
      ∙ ap (λ es. run es (fresh t sent)) (seconds-add (suc k) (m * suc k))
      ∙ run-append (seconds (suc k)) (seconds (m * suc k)) (fresh t sent)
      ∙ ap (run (seconds (m * suc k))) (run-interval t sent)
      ∙ run-intervals m (t + suc k) (sent ++ ((t + suc k, heart_beat) ∷ []))
      ∙ ap (λ l. fresh (t + suc k + m * suc k) l)
          (append_assoc sent ((t + suc k, heart_beat) ∷ []) (beats (t + suc k) (suc k) m))
      ∙ ap (λ u. fresh u (sent ++ beats t (suc k) (suc m))) (after_first t m k)
    where
      one_first : (m k : ℕ) → suc m * suc k ≡ suc k + m * suc k
      one_first m k = grind arith

      after_first : (t m k : ℕ) → t + suc k + m * suc k ≡ t + suc m * suc k
      after_first t m k = grind arith

  run-seconds-fresh :
      (m r t : ℕ) (sent : List (ℕ × Request))
      → r < suc k
      → run (seconds (m * suc k + r)) (fresh t sent)
        ≡ alive c (suc k) (suc k - r) (t + (m * suc k + r)) (sent ++ beats t (suc k) m)
  run-seconds-fresh m r t sent less =
      let later = sent ++ beats t (suc k) m in
      ap (λ es. run es (fresh t sent)) (seconds-add (m * suc k) r)
      ∙ run-append (seconds (m * suc k)) (seconds r) (fresh t sent)
      ∙ ap (run (seconds r)) (run-intervals m t sent)
      ∙ ap (λ l. run (seconds r) (alive c (suc k) l (t + m * suc k) later)) (split r k less)
      ∙ run-seconds-alive c (suc k) r (k - r) (t + m * suc k) later
      ∙ ap (λ l. alive c (suc k) l (t + m * suc k + r) later) (rest r k less)
      ∙ ap (λ u. alive c (suc k) (suc k - r) u later) (regroup t (m * suc k) r)
    where
      split : (r k : ℕ) → r < suc k → suc k ≡ suc (k - r) + r
      split r k less = omega (arith, less)

      rest : (r k : ℕ) → r < suc k → suc (k - r) ≡ suc k - r
      rest r k less = omega (arith, less)

      regroup : (t n r : ℕ) → t + n + r ≡ t + (n + r)
      regroup t n r = omega arith

abbrev confirmed : ProtobufClient → ℕ → ProtobufClient
confirmed c steam_id = record c { confirmed_steam_id = some steam_id }

step-logged_on :
    (c : ProtobufClient) (steam_id k : ℕ)
    → c.receiving ≡ true
    → c.socket_open ≡ true
    → c.heartbeat_task ≡ none
    → c.left_behind ≡ []
    → step (logged_on EResult.ok_result steam_id (suc k)) c
      ≡ fresh (confirmed c steam_id) k c.now c.sent
unfolding step process_client_log_on_response
step-logged_on c steam_id k receives opened no_task none_left =
    let on : List Heartbeat → Bool → ProtobufClient = λ hs b.
      record (fresh (confirmed c steam_id) k c.now c.sent) { left_behind = hs; socket_open = b } in
    ap (λ b. if b then on (held c.heartbeat_task ++ c.left_behind) c.socket_open else c) receives
    ∙ ap (λ o. on (held o ++ c.left_behind) c.socket_open) no_task
    ∙ ap (λ l. on l c.socket_open) none_left
    ∙ ap (on []) opened

-- After a log-on on an open socket, m intervals and less than one more without a message: the client
-- has sent a heartbeat at the end of each interval, at these seconds, and nothing else, and is asleep for
-- what is left of the interval. The interval is not 0, and the client had no heartbeats before.
pub run-logged_on-beats :
    (c : ProtobufClient) (steam_id k m r : ℕ)
    → c.receiving ≡ true
    → c.socket_open ≡ true
    → c.heartbeat_task ≡ none
    → c.left_behind ≡ []
    → r < suc k
    → let d = run (logged_on EResult.ok_result steam_id (suc k) ∷ seconds (m * suc k + r)) c in
      (d.sent ≡ c.sent ++ beats c.now (suc k) m)
      × (d.heartbeat_task ≡ some (asleep (suc k) (suc k - r)))
      × (d.now ≡ c.now + (m * suc k + r))
unfolding run step process_client_log_on_response
run-logged_on-beats c steam_id k m r receives opened no_task none_left less =
    let d = run (logged_on EResult.ok_result steam_id (suc k) ∷ seconds (m * suc k + r)) c in
    let whole =
      ap (run (seconds (m * suc k + r)))
        (step-logged_on c steam_id k receives opened no_task none_left)
      ∙ run-seconds-fresh (confirmed c steam_id) k m r c.now c.sent less in
    (
      ap (λ (e : ProtobufClient). e.sent) whole,
      ap (λ (e : ProtobufClient). e.heartbeat_task) whole,
      ap (λ (e : ProtobufClient). e.now) whole,
    )
