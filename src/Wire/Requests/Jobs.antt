-- ===== src/Wire/Requests/Jobs.antt =====
-- No two calls of a connection have the same job id.

use galaxy_integration_steam.Prelude.{
  ℕ, suc, ◌+◌, ◌≤◌, ◌<◌, ◌≡◌, refl, ap, ◌⊎◌, inl, inr, List, [], ◌∷◌, Option, none, some, Result,
  ok, err, arith,
}
use galaxy_integration_steam.Prelude.Text.{Text}
use galaxy_integration_steam.Wire.Bytes.{Bytes, WireError}
use galaxy_integration_steam.Wire.EMsg
use galaxy_integration_steam.Wire.Packet.{
  Header, Codec, Client, header_for, send, send_service_method, read_packet, proto_mask,
}
use galaxy_integration_steam.Wire.Packet.Laws.{read_packet-send}
use galaxy_integration_steam.Wire.Requests.{
  Request, Call, message, answer, service, method, call_of, send_call, send_request, send_requests,
}

abbrev pub job_in : Result WireError (ℕ × Option (Header × Bytes)) → Option ℕ
job_in (ok (emsg, some (h, body))) = h.jobid_source
job_in _ = none

-- The job id that a packet carries, if it was sent.
abbrev pub job_of : Codec → Result WireError Bytes → Option ℕ
job_of k (err e) = none
job_of k (ok packet) = job_in (read_packet k packet)

abbrev pub put_job : Option ℕ → List ℕ → List ℕ
put_job none js = js
put_job (some j) js = j ∷ js

abbrev pub job_ids : Codec → List (Result WireError Bytes) → List ℕ
job_ids k [] = []
job_ids k (p ∷ ps) = put_job (job_of k p) (job_ids k ps)

-- Each number is at least n, and above those before it.
abbrev pub IsIncreasingFrom : ℕ → List ℕ → Type 0
IsIncreasingFrom n [] = Unit {0}
IsIncreasingFrom n (j ∷ js) = (n ≤ j) × IsIncreasingFrom (suc j) js

IsIncreasingFrom-mono :
    (m n : ℕ) (js : List ℕ) → m ≤ n → IsIncreasingFrom n js → IsIncreasingFrom m js
IsIncreasingFrom-mono m n [] h i = tt
IsIncreasingFrom-mono m n (j ∷ js) h (i, is) = (omega (arith, h, i), is)

-- A call of a service takes the next job id; nothing else does.
abbrev Takes : ℕ → ℕ → Option ℕ → Type 0
Takes n n' j = (n ≤ n') × ((j ≡ none) ⊎ ((j ≡ some n) × (n' ≡ n + 1)))

module _ (k : Codec) where
  job_of-send :
      (c : Client) (emsg : ℕ) (body : Bytes) (source target : Option ℕ) (name : Option Text)
      → emsg < proto_mask
      → (o : Result WireError Bytes) → send k c emsg body source target name ≡ o
      → (job_of k o ≡ none) ⊎ (job_of k o ≡ source)
  unfolding header_for
  job_of-send c emsg body source target name small (err e) sent = inl refl
  job_of-send c emsg body source target name small (ok packet) sent =
      inr (ap job_in (read_packet-send k c emsg body source target name small sent))

  send-Takes :
      (c : Client) (emsg : ℕ) (body : Bytes) (target : Option ℕ) (name : Option Text) (n : ℕ)
      → emsg < proto_mask
      → Takes n (n + 1) (job_of k (send k c emsg body (some n) target name))
  send-Takes c emsg body target name n small = (
    omega arith,
    elim (job_of-send c emsg body (some n) target name small _ refl) [
      | inl unsent ↦ inl unsent
      | inr taken ↦ inr (taken, refl)
    ],
  )

  plain-Takes :
      (c : Client) (emsg : ℕ) (body : Bytes) (target : Option ℕ) (name : Option Text) (n : ℕ)
      → emsg < proto_mask
      → Takes n n (job_of k (send k c emsg body none target name))
  plain-Takes c emsg body target name n small = (
    omega arith,
    elim (job_of-send c emsg body none target name small _ refl) [
      | inl unsent ↦ inl unsent
      | inr none_taken ↦ inl none_taken
    ],
  )

  method-Takes :
      (c : Client) (body : Bytes) (name : Text)
      → Takes c.next_job_id
          (send_service_method k c body name).0.next_job_id
          (job_of k (send_service_method k c body name).1)
  unfolding send_service_method
  method-Takes c body name =
      send-Takes (record c { next_job_id = c.next_job_id + 1 }) _ body none (some name)
        c.next_job_id (small c.confirmed_steam_id)
    where
      small :
          (o : Option ℕ)
          → elim o [
            | none ↦ EMsg.service_method_call_from_client_non_authed
            | some _ ↦ EMsg.service_method_call_from_client
          ]
            < proto_mask
      small none = omega arith
      small (some i) = omega arith

-- The number of a message is below the mask.
abbrev IsSmall : Call → Type 0
IsSmall (message emsg) = emsg < proto_mask
IsSmall (answer emsg job) = emsg < proto_mask
IsSmall (service name) = Unit
IsSmall (method name) = Unit

call_of-IsSmall : (r : Request) → IsSmall (call_of r)
unfolding call_of
call_of-IsSmall Request.hello = omega arith
call_of-IsSmall Request.heart_beat = omega arith
call_of-IsSmall Request.log_off = omega arith
call_of-IsSmall Request.import_game_time = tt
call_of-IsSmall Request.friends_statuses = tt
call_of-IsSmall Request.import_collections = tt
call_of-IsSmall (Request.rsa_public_key name) = tt
call_of-IsSmall (Request.log_on_password name password timestamp os) = tt
call_of-IsSmall (Request.steamguard_data client_id steam_id code type_) = tt
call_of-IsSmall (Request.auth_status client_id request_id) = tt
call_of-IsSmall (Request.log_on_token m) = omega arith
call_of-IsSmall (Request.import_game_stats game_id) = omega arith
call_of-IsSmall (Request.persona_state state) = omega arith
call_of-IsSmall (Request.user_infos users flags) = omega arith
call_of-IsSmall (Request.packages_info licenses) = omega arith
call_of-IsSmall (Request.apps_info app_ids) = omega arith
call_of-IsSmall (Request.presence_localization appid language) = tt
call_of-IsSmall (Request.machine_auth job sha_hash offset filename cubtowrite) = omega arith

module _ (k : Codec) (serialize : Request → Bytes) where
  send_call-Takes :
      (call : Call) (body : Bytes) (c : Client)
      → IsSmall call
      → Takes c.next_job_id
          (send_call k serialize call body c).0.next_job_id
          (job_of k (send_call k serialize call body c).1)
  unfolding send_call
  send_call-Takes (message emsg) body c small =
      plain-Takes k c emsg body none none c.next_job_id small
  send_call-Takes (answer emsg job) body c small =
      plain-Takes k c emsg body (some job) none c.next_job_id small
  send_call-Takes (service name) body c small =
      send-Takes k (record c { next_job_id = c.next_job_id + 1 })
        EMsg.service_method_call_from_client body none (some name) c.next_job_id (omega arith)
  send_call-Takes (method name) body c small = method-Takes k c body name

  put_job-IsIncreasing :
      (n n' : ℕ) (j : Option ℕ) (js : List ℕ)
      → Takes n n' j
      → IsIncreasingFrom n' js
      → IsIncreasingFrom n (put_job j js)
  put_job-IsIncreasing n n' none js (h, taken) i = IsIncreasingFrom-mono n n' js h i
  put_job-IsIncreasing n n' (some j) js (h, taken) i = elim taken [
    | inl unsent ↦ ground (arith, unsent)
    | inr (same, next) ↦
        (ground (arith, same), IsIncreasingFrom-mono (suc j) n' js (ground (arith, same, next)) i)
  ]

  -- Whatever requests are sent, one after the other and with whatever ids they carry: the job ids of the
  -- packets that come to be sent start at the next id of the client or above, and increase, so that no
  -- two packets share one. A call whose header is too long is not sent and counts for nothing here.
  pub job_ids-send_requests :
      (rs : List Request) (c : Client)
      → IsIncreasingFrom c.next_job_id (job_ids k (send_requests k serialize rs c))
  unfolding send_requests send_request
  job_ids-send_requests [] c = tt
  job_ids-send_requests (r ∷ rs) c =
      put_job-IsIncreasing c.next_job_id (send_request k serialize r c).0.next_job_id _ _
        (send_call-Takes (call_of r) (serialize r) c (call_of-IsSmall r))
        (job_ids-send_requests rs (send_request k serialize r c).0)
