-- ===== src/Wire/Session/Silence.antt =====
-- Sessions without a task that runs.
use galaxy_integration_steam.Prelude.{
  ℕ, zero, suc, ◌+◌, ◌≡◌, ◌⊎◌, inl, inr, refl, ap, ◌∙◌, sym, Bool, true, false, List, [], ◌∷◌, ◌++◌,
  Option, none, some, Result, arith, if◌then◌else◌, ◌==◌, if_intro,
}
use mathlib.Core.Path.{subst}
use galaxy_integration_steam.Prelude.Keys.{nat_eq}
use galaxy_integration_steam.Prelude.Int.{ℤ}
use galaxy_integration_steam.Auth.EResult
use galaxy_integration_steam.Wire.Requests.{Request, heart_beat, log_off}
use galaxy_integration_steam.Wire.Session.{
  Heartbeat, asleep, ended, ProtobufClient, beat, beat_all, second, Event, logged_on, logged_off,
  second_passes, socket_closes, closes, step, run, process_client_log_on_response,
  process_client_logged_off, close, cancel, stop_if, SessionError, send, sleep_again, beat_task,
}

-- How many heartbeats were sent.
abbrev pub is_heart_beat : Request → Bool
is_heart_beat heart_beat = true
is_heart_beat _ = false

abbrev pub heart_beats : List (ℕ × Request) → ℕ
heart_beats [] = 0
heart_beats ((_, m) ∷ sent) = (if is_heart_beat m then 1 else 0) + heart_beats sent

-- How often a user is logged on.
abbrev pub log_ons : List Event → ℕ
log_ons [] = 0
log_ons (logged_on result _ _ ∷ es) = (if result == EResult.ok_result then 1 else 0) + log_ons es
log_ons (_ ∷ es) = log_ons es

abbrev pub IsSilent : Option Heartbeat → Type 0
IsSilent none = Unit
IsSilent (some ended) = Unit
IsSilent (some (asleep _ _)) = ⊥

-- No task runs, and none will.
abbrev pub IsOver : ℕ → ProtobufClient → Type 0
IsOver n c = (c.left_behind ≡ []) × IsSilent c.heartbeat_task × ((c.receiving ≡ false) ⊎ (n ≡ 0))

abbrev pub IsQuieter : ℕ → ProtobufClient → ProtobufClient → Type 0
IsQuieter n c d = IsOver n d × (heart_beats d.sent ≡ heart_beats c.sent)

heart_beats-log_off :
    (sent : List (ℕ × Request)) (t : ℕ)
    → heart_beats (sent ++ ((t, log_off) ∷ [])) ≡ heart_beats sent
heart_beats-log_off [] t = refl
heart_beats-log_off ((u, m) ∷ sent) t =
    ap (λ n. (if is_heart_beat m then 1 else 0) + n) (heart_beats-log_off sent t)

pub heart_beats-close :
    (b : Bool) (c : ProtobufClient) → heart_beats (close b c).sent ≡ heart_beats c.sent
unfolding close
heart_beats-close false c = refl
heart_beats-close true c =
    if_intro (λ (d : ProtobufClient × _). heart_beats d.0.sent ≡ heart_beats c.sent) c.socket_open
      (λ _. heart_beats-log_off c.sent c.now) (λ _. refl)

abbrev pub put : List Heartbeat → Option Heartbeat → ProtobufClient → ProtobufClient
put hs t c = record c { left_behind = hs; heartbeat_task = t }

second-put :
    (c : ProtobufClient) (t : Option Heartbeat)
    → IsSilent t
    → second (put [] t c) ≡ record (put [] t c) { now = suc c.now }
unfolding second beat_all beat
second-put c none silent = refl
second-put c (some ended) silent = refl
second-put c (some (asleep i n)) silent = absurd silent

pub second-silent :
    (c : ProtobufClient)
    → c.left_behind ≡ []
    → IsSilent c.heartbeat_task
    → second c ≡ record (put [] c.heartbeat_task c) { now = suc c.now }
second-silent c e silent =
    ap (λ hs. second (put hs c.heartbeat_task c)) e ∙ second-put c c.heartbeat_task silent

pub left_behind-second : (c : ProtobufClient) → c.left_behind ≡ [] → (second c).left_behind ≡ []
unfolding second beat_all
left_behind-second c e = ap (λ hs. (second (put hs c.heartbeat_task c)).left_behind) e

-- A second does not change whether messages are received.
receiving-sleep_again :
    (i : ℕ) (c : ProtobufClient) → (sleep_again i (send heart_beat c)).1.receiving ≡ c.receiving
receiving-sleep_again i c =
    if_intro
      (λ (x : ProtobufClient × Result SessionError (Unit {0})).
        (sleep_again i x).1.receiving ≡ c.receiving)
      c.socket_open (λ _. refl) (λ _. refl)

receiving-beat : (h : Heartbeat) (c : ProtobufClient) → (beat h c).1.receiving ≡ c.receiving
unfolding beat
receiving-beat ended c = refl
receiving-beat (asleep i (suc (suc n))) c = refl
receiving-beat (asleep i (suc zero)) c = receiving-sleep_again i c
receiving-beat (asleep i zero) c = receiving-sleep_again i c

pub receiving-second :
    (c : ProtobufClient) → c.left_behind ≡ [] → (second c).receiving ≡ c.receiving
unfolding second beat_all
receiving-second c e =
    ap (λ hs. (second (put hs c.heartbeat_task c)).receiving) e ∙ by_task c.heartbeat_task
  where
    by_task :
        (t : Option Heartbeat)
        → (beat_task t (record (put [] c.heartbeat_task c) { now = suc c.now })).receiving
          ≡ c.receiving
    by_task none = refl
    by_task (some h) = receiving-beat h (record (put [] c.heartbeat_task c) { now = suc c.now })

pub IsSilent-cancel : (t : Option Heartbeat) → IsSilent (cancel t)
IsSilent-cancel none = tt
IsSilent-cancel (some h) = tt

pub close-eq :
    (b : Bool) (c : ProtobufClient)
    → close b c ≡ record c {
      receiving = false;
      heartbeat_task = cancel c.heartbeat_task;
      sent = (close b c).sent;
    }
unfolding close
close-eq false c = refl
close-eq true c =
    if_intro
      (λ (x : ProtobufClient × Result SessionError (Unit {0})).
        record x.0 { heartbeat_task = cancel x.0.heartbeat_task }
        ≡ record c { receiving = false; heartbeat_task = cancel c.heartbeat_task; sent = x.0.sent })
      c.socket_open (λ _. refl) (λ _. refl)

pub IsOver-close :
    (n : ℕ) (b : Bool) (c : ProtobufClient) → c.left_behind ≡ [] → IsOver n (close b c)
IsOver-close n b c e =
    subst (IsOver n) (sym (close-eq b c)) (e, IsSilent-cancel c.heartbeat_task, inl refl)

-- The end of a session.
pub logged_off-IsOver :
    (n r : ℕ) (t : Option Heartbeat) (c : ProtobufClient)
    → c.left_behind ≡ []
    → c.heartbeat_task ≡ t
    → ((t ≡ none) ⊎ (n ≡ 0))
    → IsQuieter n c (stop_if (process_client_logged_off r t c))
unfolding process_client_logged_off
logged_off-IsOver n r none c e p single = ((e, subst IsSilent (sym p) tt, inl refl), refl)
logged_off-IsOver n r (some h) c e p (inl q) = ground (arith, q)
logged_off-IsOver n r (some h) c e p (inr z) = ((e, tt, inr z), refl)

pub still_none : {P : Type 0} (n m : ℕ) → P ⊎ (n ≡ 0) → n ≡ 0 + m → P ⊎ (m ≡ 0)
still_none n m (inl p) q = inl p
still_none n m (inr z) q = inr (omega (arith, z, q))

-- Messages are not received, or none of them logs on.
logged_on-IsOver :
    (r i k n m : ℕ) (c : ProtobufClient)
    → IsOver n c
    → n ≡ log_ons (logged_on r i k ∷ []) + m
    → IsQuieter m c (step (logged_on r i k) c)
unfolding step process_client_log_on_response
logged_on-IsOver r i k n m c (e, s, o) p =
    if_intro (IsQuieter m c) c.receiving
      (λ receives.
        if_intro (λ (x : ProtobufClient × (ℕ × ℕ × Option ℤ)). IsQuieter m c x.0)
          (r == EResult.ok_result) (λ fine. absurd (refused o receives fine p))
          (λ other. ((e, s, kept o receives other p), refl)))
      (λ q. ((e, s, inl q), refl))
  where
    refused :
        (c.receiving ≡ false) ⊎ (n ≡ 0)
        → c.receiving ≡ true
        → (r == EResult.ok_result) ≡ true
        → n ≡ log_ons (logged_on r i k ∷ []) + m
        → ⊥
    refused (inl q) receives fine p = ground (arith, q, receives)
    refused (inr z) receives fine p = ground (arith, z, fine, p)

    kept :
        (c.receiving ≡ false) ⊎ (n ≡ 0)
        → c.receiving ≡ true
        → (r == EResult.ok_result) ≡ false
        → n ≡ log_ons (logged_on r i k ∷ []) + m
        → (c.receiving ≡ false) ⊎ (m ≡ 0)
    kept (inl q) receives other p = inl q
    kept (inr z) receives other p = inr (ground (arith, z, p))

pub log_ons-cons : (e : Event) (es : List Event) → log_ons (e ∷ es) ≡ log_ons (e ∷ []) + log_ons es
log_ons-cons (logged_on r i k) es = omega arith
log_ons-cons (logged_off r) es = omega arith
log_ons-cons second_passes es = omega arith
log_ons-cons socket_closes es = omega arith
log_ons-cons (closes b) es = omega arith

step_over :
    (e : Event) (n m : ℕ) (c : ProtobufClient)
    → IsOver n c
    → n ≡ log_ons (e ∷ []) + m
    → IsQuieter m c (step e c)
unfolding step
step_over (logged_on r i k) n m c over p = logged_on-IsOver r i k n m c over p
step_over (logged_off r) n m c (e, s, o) p =
    if_intro (IsQuieter m c) c.receiving (λ _. by_task c.heartbeat_task s refl)
      (λ q. ((e, s, inl q), refl))
  where
    by_task :
        (t : Option Heartbeat)
        → IsSilent t
        → c.heartbeat_task ≡ t
        → IsQuieter m c (stop_if (process_client_logged_off r t c))
    by_task none silent q = logged_off-IsOver m r none c e q (inl refl)
    by_task (some ended) silent q = ((e, tt, still_none n m o p), refl)
    by_task (some (asleep i k)) silent q = absurd silent
step_over second_passes n m c (e, s, o) p =
    subst (IsQuieter m c) (sym (second-silent c e s)) ((refl, s, still_none n m o p), refl)
step_over socket_closes n m c (e, s, o) p = ((e, s, still_none n m o p), refl)
step_over (closes b) n m c (e, s, o) p = (IsOver-close m b c e, heart_beats-close b c)

pub run_over :
    (es : List Event) (c : ProtobufClient)
    → IsOver (log_ons es) c
    → heart_beats (run es c).sent ≡ heart_beats c.sent
unfolding run
run_over [] c over = refl
run_over (e ∷ es) c over =
    let (later, same) = step_over e (log_ons (e ∷ es)) (log_ons es) c over (log_ons-cons e es) in
    run_over es (step e c) later ∙ same
