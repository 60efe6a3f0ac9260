-- ===== src/Imports/Jobs.antt =====
-- The queue of jobs that `ProtobufClient.run` of src/steam_network/protocol/protobuf_client.py works
-- off between packets; the jobs come from the `import_` methods of protocol_client.py.
use galaxy_integration_steam.Prelude.{
  ℕ, zero, suc, ◌+◌, ◌-◌, ◌≤◌, ◌<◌, ◌≡◌, refl, ap, sym, ◌∙◌, List, [], ◌∷◌, ◌++◌, arith,
  if◌then◌else◌, if_intro, ltb, take, drop, length, append_assoc, append-nil, length-take,
  length-drop, length-append, tests, ◌⊎◌, inl, inr,
}

pub data Job : Type 0 where
  import_game_stats : ℕ → Job
  import_collections import_game_times unknown : Job

-- `sent` is what has been taken off the list, in order: the request of the job, or the warning that it
-- is unknown.
pub record Client : Type 0 where
  pub job_list : List Job
  pub jobs_to_process : ℕ
  pub sent : List Job

-- What ends the loop when a round starts its jobs: nothing, or that the request of the first of them, or
-- of the second, raises.
pub data Ending : Type 0 where
  goes_on : Ending
  first_raises second_raises : Ending

-- What the wait for a packet ends in. While a packet is handled new jobs may be put on the list; an
-- exception of the handler ends the loop, as the closing of the socket does.
pub data Received : Type 0 where
  packet : List Job → Received
  timeout : Received

-- `for job in self.job_list[:2].copy()`. `remove` takes the first job that is equal, which is the first.
unfoldable pub start_jobs : Client → Client
start_jobs c =
    if ltb c.jobs_to_process 2
    then record {
      job_list = drop 2 c.job_list;
      jobs_to_process = c.jobs_to_process + length (take 2 c.job_list);
      sent = c.sent ++ take 2 c.job_list;
    }
    else c

-- The job whose request raises is counted, and stays on the list.
unfoldable pub end_loop : Ending → Client → Client
end_loop goes_on c = c
end_loop first_raises c =
    if ltb c.jobs_to_process 2 then record c { jobs_to_process = c.jobs_to_process + 1 } else c
end_loop second_raises c =
    if ltb c.jobs_to_process 2
    then record {
      job_list = drop 1 c.job_list;
      jobs_to_process = c.jobs_to_process + 2;
      sent = c.sent ++ take 1 c.job_list;
    }
    else c

-- One round of the loop. `import_` methods that are called while the loop waits put jobs on the list too.
unfoldable pub receive : Received → Client → Client
receive (packet jobs) c = record c {
  job_list = c.job_list ++ jobs;
  jobs_to_process = c.jobs_to_process - 1;
}
receive timeout c = c

unfoldable pub add_jobs : List Job → Client → Client
add_jobs jobs c = record c { job_list = c.job_list ++ jobs }

-- The jobs that are put on the list while the loop waits, and what it then receives.
pub record Round : Type 0 where
  pub called : List Job
  pub received : Received

unfoldable pub round : Round → Client → Client
unfolding start_jobs receive add_jobs
round r c = receive r.received (add_jobs r.called (start_jobs c))

unfoldable pub rounds : List Round → Client → Client
unfolding round
rounds [] c = c
rounds (r ∷ rs) c = rounds rs (round r c)

abbrev pub handled : Received → List Job
handled (packet jobs) = jobs
handled timeout = []

-- Every job that is put on the list, in order.
abbrev pub put_on : List Round → List Job
put_on [] = []
put_on (r ∷ rs) = r.called ++ (handled r.received ++ put_on rs)

take-drop : (n : ℕ) (l : List Job) → take n l ++ drop n l ≡ l
take-drop zero l = refl
take-drop (suc n) [] = refl
take-drop (suc n) (x ∷ l) = ap (λ m. x ∷ m) (take-drop n l)

abbrev all_of : Client → List Job
all_of c = c.sent ++ c.job_list

all_of-start_jobs : (c : Client) → all_of (start_jobs c) ≡ all_of c
unfolding start_jobs
all_of-start_jobs c =
    if_intro (λ (d : Client). all_of d ≡ all_of c) (ltb c.jobs_to_process 2)
      (λ _.
        append_assoc c.sent (take 2 c.job_list) (drop 2 c.job_list)
        ∙ ap (λ l. c.sent ++ l) (take-drop 2 c.job_list))
      (λ _. refl)

all_of-end_loop : (ending : Ending) (c : Client) → all_of (end_loop ending c) ≡ all_of c
unfolding end_loop
all_of-end_loop goes_on c = refl
all_of-end_loop first_raises c =
    if_intro (λ (d : Client). all_of d ≡ all_of c) (ltb c.jobs_to_process 2) (λ _. refl) (λ _. refl)
all_of-end_loop second_raises c =
    if_intro (λ (d : Client). all_of d ≡ all_of c) (ltb c.jobs_to_process 2)
      (λ _.
        append_assoc c.sent (take 1 c.job_list) (drop 1 c.job_list)
        ∙ ap (λ l. c.sent ++ l) (take-drop 1 c.job_list))
      (λ _. refl)

all_of-receive : (r : Received) (c : Client) → all_of (receive r c) ≡ all_of c ++ handled r
unfolding receive
all_of-receive (packet jobs) c = sym (append_assoc c.sent c.job_list jobs)
all_of-receive timeout c = sym (append-nil (all_of c))

all_of-round :
    (r : Round) (c : Client) → all_of (round r c) ≡ all_of c ++ (r.called ++ handled r.received)
unfolding round add_jobs
all_of-round r c =
    all_of-receive r.received (add_jobs r.called (start_jobs c))
    ∙ ap (λ l. l ++ handled r.received)
        (sym (append_assoc (start_jobs c).sent (start_jobs c).job_list r.called)
          ∙ ap (λ l. l ++ r.called) (all_of-start_jobs c))
    ∙ append_assoc (all_of c) r.called (handled r.received)

all_of-rounds : (rs : List Round) (c : Client) → all_of (rounds rs c) ≡ all_of c ++ put_on rs
unfolding rounds
all_of-rounds [] c = sym (append-nil (all_of c))
all_of-rounds (r ∷ rs) c =
    all_of-rounds rs (round r c)
    ∙ ap (λ l. l ++ put_on rs) (all_of-round r c)
    ∙ append_assoc (all_of c) (r.called ++ handled r.received) (put_on rs)
    ∙ ap (λ l. all_of c ++ l) (append_assoc r.called (handled r.received) (put_on rs))

-- The jobs that have been taken off the list and those that are still on it are all the jobs that were
-- ever put on it, in the order in which they were: none is lost, repeated or overtaken. This holds after
-- any rounds, and also where the request of a job then raises, which ends the loop.
pub rounds-keeps :
    (rs : List Round) (ending : Ending) (c : Client)
    → (end_loop ending (rounds rs c)).sent ++ (end_loop ending (rounds rs c)).job_list
      ≡ (c.sent ++ c.job_list) ++ put_on rs
rounds-keeps rs ending c = all_of-end_loop ending (rounds rs c) ∙ all_of-rounds rs c

start_jobs_bound : (c : Client) → c.jobs_to_process ≤ 3 → (start_jobs c).jobs_to_process ≤ 3
unfolding start_jobs
start_jobs_bound c h =
    if_intro (λ (d : Client). d.jobs_to_process ≤ 3) (ltb c.jobs_to_process 2)
      (λ few. omega (tests, few, length-take 2 c.job_list)) (λ _. h)

round_bound : (r : Round) (c : Client) → c.jobs_to_process ≤ 3 → (round r c).jobs_to_process ≤ 3
unfolding round receive add_jobs
round_bound r c h = by_received r.received
  where
    by_received :
        (x : Received) → (receive x (add_jobs r.called (start_jobs c))).jobs_to_process ≤ 3
    by_received (packet jobs) = omega (arith, start_jobs_bound c h)
    by_received timeout = start_jobs_bound c h

-- The count of the jobs that wait for their packet never passes three.
pub rounds_bound :
    (rs : List Round) (c : Client) → c.jobs_to_process ≤ 3 → (rounds rs c).jobs_to_process ≤ 3
unfolding rounds
rounds_bound [] c h = h
rounds_bound (r ∷ rs) c h = rounds_bound rs (round r c) (round_bound r c h)

-- Packets that come while no new job is put on the list.
abbrev quiet : Round
quiet = record { called = []; received = packet [] }

abbrev pub packets : ℕ → List Round
packets zero = []
packets (suc n) = quiet ∷ packets n

abbrev load : Client → ℕ
load c = length c.job_list + c.jobs_to_process

load-start_jobs : (c : Client) → load (start_jobs c) ≡ load c
unfolding start_jobs
load-start_jobs c =
    if_intro (λ (d : Client). load d ≡ load c) (ltb c.jobs_to_process 2)
      (λ _. omega (arith, length-take 2 c.job_list, length-drop 2 c.job_list)) (λ _. refl)

-- A job is counted, or none is left on the list.
abbrev IsStarted : Client → Type 0
IsStarted c = (0 < c.jobs_to_process) ⊎ (length c.job_list ≡ 0)

start_jobs-IsStarted : (c : Client) → IsStarted (start_jobs c)
unfolding start_jobs
start_jobs-IsStarted c =
    if_intro IsStarted (ltb c.jobs_to_process 2) (λ _. taken c.job_list)
      (λ many. inl (ground (arith, many)))
  where
    taken : (l : List Job) → (0 < c.jobs_to_process + length (take 2 l)) ⊎ (length (drop 2 l) ≡ 0)
    taken [] = inr refl
    taken (x ∷ []) = inl (omega arith)
    taken (x ∷ y ∷ l) = inl (omega arith)

load-quiet : (c : Client) (n : ℕ) → load c ≤ suc n → load (round quiet c) ≤ n
unfolding round receive add_jobs
load-quiet c n h =
    let d = start_jobs c in
    elim (start_jobs-IsStarted c) [
      | inl some_counted ↦ omega (
        arith,
        some_counted,
        h,
        load-start_jobs c,
        length-append (d.job_list ++ []) [],
        length-append d.job_list [],
      )
      | inr none_left ↦ omega (
        arith,
        none_left,
        h,
        load-start_jobs c,
        length-append (d.job_list ++ []) [],
        length-append d.job_list [],
      )
    ]

put_on-packets : (n : ℕ) → put_on (packets n) ≡ []
put_on-packets zero = refl
put_on-packets (suc n) = put_on-packets n

rounds-packets-load : (n : ℕ) (c : Client) → load c ≤ n → load (rounds (packets n) c) ≤ 0
unfolding rounds
rounds-packets-load zero c h = h
rounds-packets-load (suc n) c h = rounds-packets-load n (round quiet c) (load-quiet c n h)

nil_of_length : (l : List Job) → length l ≤ 0 → l ≡ []
nil_of_length [] h = refl
nil_of_length (x ∷ l) h = ground (arith, h)

-- As many packets as there are jobs on the list and jobs that are counted, with no job put on the list
-- meanwhile, are enough for every job to be taken, in the order of the list.
pub rounds-packets :
    (n : ℕ) (c : Client)
    → length c.job_list + c.jobs_to_process ≤ n
    → ((rounds (packets n) c).job_list ≡ []) × ((rounds (packets n) c).sent ≡ c.sent ++ c.job_list)
rounds-packets n c h =
    let d = rounds (packets n) c in
    let none_left = nil_of_length d.job_list (omega (arith, rounds-packets-load n c h)) in
    (
      none_left,
      sym (append-nil d.sent)
          ∙ ap (λ l. d.sent ++ l) (sym none_left)
          ∙ all_of-rounds (packets n) c
          ∙ ap (λ l. (c.sent ++ c.job_list) ++ l) (put_on-packets n)
          ∙ append-nil (c.sent ++ c.job_list),
    )
