-- ===== src/Wire/Session/Single.antt =====
-- Sessions in which one user is logged on, up to their end and after it.
use galaxy_integration_steam.Prelude.{
  ℕ, ◌+◌, ◌≤◌, ◌≡◌, ◌⊎◌, inl, inr, refl, ap, ◌∙◌, sym, true, false, List, [], ◌∷◌, ◌++◌, Option,
  none, some, arith, ◌==◌, if_intro,
}
use mathlib.Core.Path.{subst}
use galaxy_integration_steam.Prelude.Keys.{nat_eq}
use galaxy_integration_steam.Prelude.Int.{ℤ}
use galaxy_integration_steam.Auth.EResult
use galaxy_integration_steam.Wire.Session.{
  Heartbeat, ProtobufClient, second, Event, logged_on, logged_off, second_passes, socket_closes,
  closes, step, run, process_client_log_on_response, process_client_logged_off, held, cancel,
  stop_if,
}
use galaxy_integration_steam.Wire.Session.Silence.{
  heart_beats, log_ons, IsSilent, IsQuieter, second-silent, left_behind-second, receiving-second,
  IsSilent-cancel, close-eq, IsOver-close, logged_off-IsOver, still_none, log_ons-cons, run_over,
  heart_beats-close,
}

-- What ends a session: a log-off of the server's, or the closing.
abbrev pub IsEnd : Event → Type 0
IsEnd (logged_off _) = Unit
IsEnd (closes _) = Unit
IsEnd _ = ⊥

-- No task is left behind; there is a task only once no user is logged on any more, and it runs only while
-- messages are received.
abbrev IsSingle : ℕ → ProtobufClient → Type 0
IsSingle n c =
    (c.left_behind ≡ [])
    × ((c.heartbeat_task ≡ none) ⊎ (n ≡ 0))
    × ((c.receiving ≡ true) ⊎ IsSilent c.heartbeat_task)

second-IsSingle : (n : ℕ) (c : ProtobufClient) → IsSingle n c → IsSingle n (second c)
second-IsSingle n c (e, inl none_yet, o) =
    subst (IsSingle n) (sym (second-silent c e (subst IsSilent (sym none_yet) tt)))
      (refl, inl none_yet, o)
second-IsSingle n c (e, inr z, inr s) =
    subst (IsSingle n) (sym (second-silent c e s)) (refl, inr z, inr s)
second-IsSingle n c (e, inr z, inl receives) =
    (left_behind-second c e, inr z, inl (receiving-second c e ∙ receives))

logged_on-IsSingle :
    (r i k n m : ℕ) (c : ProtobufClient)
    → IsSingle n c
    → n ≤ 1
    → n ≡ log_ons (logged_on r i k ∷ []) + m
    → IsSingle m (step (logged_on r i k) c)
unfolding step process_client_log_on_response
logged_on-IsSingle r i k n m c (e, o, q) le p =
    if_intro (IsSingle m) c.receiving
      (λ receives.
        if_intro (λ (x : ProtobufClient × (ℕ × ℕ × Option ℤ)). IsSingle m x.0)
          (r == EResult.ok_result)
          (λ fine. (left o fine p, inr (ground (arith, le, fine, p)), inl receives))
          (λ other. (e, later o p, q)))
      (λ _. (e, later o p, q))
  where
    left :
        (c.heartbeat_task ≡ none) ⊎ (n ≡ 0)
        → (r == EResult.ok_result) ≡ true
        → n ≡ log_ons (logged_on r i k ∷ []) + m
        → held c.heartbeat_task ++ c.left_behind ≡ []
    left (inl none_yet) fine p = ap (λ t. held t ++ c.left_behind) none_yet ∙ e
    left (inr z) fine p = absurd (ground (arith, z, fine, p))

    later :
        (c.heartbeat_task ≡ none) ⊎ (n ≡ 0)
        → n ≡ log_ons (logged_on r i k ∷ []) + m
        → (c.heartbeat_task ≡ none) ⊎ (m ≡ 0)
    later (inl none_yet) p = inl none_yet
    later (inr z) p = inr (ground (arith, z, p))

logged_off-IsSingle :
    (n r : ℕ) (t : Option Heartbeat) (c : ProtobufClient)
    → IsSingle n c
    → c.heartbeat_task ≡ t
    → IsSingle n (stop_if (process_client_logged_off r t c))
unfolding process_client_logged_off
logged_off-IsSingle n r none c (e, o, q) p = (e, o, inr (subst IsSilent (sym p) tt))
logged_off-IsSingle n r (some h) c (e, inl none_yet, q) p = ground (arith, none_yet, p)
logged_off-IsSingle n r (some h) c (e, inr z, q) p = (e, inr z, inr tt)

step-IsSingle :
    (e : Event) (n m : ℕ) (c : ProtobufClient)
    → IsSingle n c
    → n ≤ 1
    → n ≡ log_ons (e ∷ []) + m
    → IsSingle m (step e c)
unfolding step
step-IsSingle (logged_on r i k) n m c single le p = logged_on-IsSingle r i k n m c single le p
step-IsSingle (logged_off r) n m c (e, o, q) le p =
    let single : IsSingle m c = (e, still_none n m o p, q) in
    if_intro (IsSingle m) c.receiving (λ _. logged_off-IsSingle m r c.heartbeat_task c single refl)
      (λ _. single)
step-IsSingle second_passes n m c (e, o, q) le p = second-IsSingle m c (e, still_none n m o p, q)
step-IsSingle socket_closes n m c (e, o, q) le p = (e, still_none n m o p, q)
step-IsSingle (closes b) n m c (e, o, q) le p =
    subst (IsSingle m) (sym (close-eq b c))
      (e, cancelled_still (still_none n m o p), inr (IsSilent-cancel c.heartbeat_task))
  where
    cancelled_still :
        (c.heartbeat_task ≡ none) ⊎ (m ≡ 0) → (cancel c.heartbeat_task ≡ none) ⊎ (m ≡ 0)
    cancelled_still (inl none_yet) = inl (ap cancel none_yet)
    cancelled_still (inr z) = inr z

-- What ends a session leaves none of its tasks.
end-IsOver :
    (e : Event) (n : ℕ) (c : ProtobufClient) → IsEnd e → IsSingle n c → IsQuieter n c (step e c)
unfolding step
end-IsOver (logged_off r) n c ends (e, o, q) =
    if_intro (IsQuieter n c) c.receiving (λ _. logged_off-IsOver n r c.heartbeat_task c e refl o)
      (λ deaf. ((e, silent q deaf, inl deaf), refl))
  where
    silent :
        (c.receiving ≡ true) ⊎ IsSilent c.heartbeat_task
        → c.receiving ≡ false
        → IsSilent c.heartbeat_task
    silent (inl receives) deaf = absurd (ground (arith, receives, deaf))
    silent (inr s) deaf = s
end-IsOver (closes b) n c ends (e, o, q) = (IsOver-close n b c e, heart_beats-close b c)
end-IsOver (logged_on r i k) n c ends single = absurd ends
end-IsOver second_passes n c ends single = absurd ends
end-IsOver socket_closes n c ends single = absurd ends

run-IsSingle :
    (es : List Event) (n : ℕ) (c : ProtobufClient)
    → IsSingle (log_ons es + n) c
    → log_ons es + n ≤ 1
    → IsSingle n (run es c)
unfolding run
run-IsSingle [] n c single le = subst (λ m. IsSingle m c) (omega arith) single
run-IsSingle (e ∷ es) n c single le =
    let split = log_ons-cons e es in
    run-IsSingle es n (step e c)
      (step-IsSingle e (log_ons (e ∷ es) + n) (log_ons es + n) c single le (omega (arith, split)))
      (omega (arith, split, le))

-- For a client that receives and has no heartbeats yet, when a user is logged on at most once: from the
-- server's log-off or the closing of the client on no heartbeat is sent, whatever follows, whether the
-- socket is open or not, and whether the log-off could be sent or not.
pub run-end-silent :
    (es es' : List Event) (e : Event) (c : ProtobufClient)
    → c.receiving ≡ true
    → c.heartbeat_task ≡ none
    → c.left_behind ≡ []
    → log_ons es + log_ons es' ≤ 1
    → IsEnd e
    → heart_beats (run es' (step e (run es c))).sent ≡ heart_beats (run es c).sent
run-end-silent es es' e c receives none_yet none_left once ends =
    let single = run-IsSingle es (log_ons es') c (none_left, inl none_yet, inl receives) once in
    let (over, same) = end-IsOver e (log_ons es') (run es c) ends single in
    run_over es' (step e (run es c)) over ∙ same
