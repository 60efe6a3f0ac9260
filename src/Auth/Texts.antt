-- ===== src/Auth/Texts.antt =====
-- What the pages are given, and what is made of the texts they send.
use galaxy_integration_steam.Prelude.{
  ℕ, ◌≤◌, ◌<◌, ◌≡◌, ◌∙◌, ap, refl, String, Bool, true, false, [], ◌∷◌, ◌++◌, arith, some, ltb,
  if◌then◌else◌, filter, take, length, All, zero, suc, length-take,
}
use galaxy_integration_steam.Prelude.Keys.{nat_eq, string_eq}
use galaxy_integration_steam.Prelude.Text.{Text, codes}
use galaxy_integration_steam.Prelude.Dict.{Dict, get, has, put, get-put}
use galaxy_integration_steam.Auth.Pages.{
  DisplayUriHelper, start_args, add_missing, to_view_string, sanitize_string,
}

abbrev pub IsAscii : Text → Type 0
IsAscii t = All (λ c. c < 128) t

filter-IsAscii : (t : Text) → IsAscii (filter (λ c. ltb c 128) t)
filter-IsAscii [] = tt
filter-IsAscii (c ∷ t) = ground (arith, filter-IsAscii t)

take-IsAscii : (n : ℕ) (t : Text) → IsAscii t → IsAscii (take n t)
take-IsAscii zero t h = tt
take-IsAscii (suc n) [] h = tt
take-IsAscii (suc n) (c ∷ t) h = (h.0, take-IsAscii n t h.1)

filter-ascii : (t : Text) → IsAscii t → filter (λ c. ltb c 128) t ≡ t
filter-ascii [] h = refl
filter-ascii (c ∷ t) h = ground (arith, filter-ascii t h.1, h.0)

take-short : (n : ℕ) (t : Text) → length t ≤ n → take n t ≡ t
take-short zero [] h = refl
take-short zero (c ∷ t) h = ground (arith, h)
take-short (suc n) [] h = refl
take-short (suc n) (c ∷ t) h = ap (λ u. c ∷ u) (take-short n t (omega (arith, h)))

filter-append :
    (t u : Text)
    → filter (λ c. ltb c 128) (t ++ u) ≡ filter (λ c. ltb c 128) t ++ filter (λ c. ltb c 128) u
filter-append [] u = refl
filter-append (c ∷ t) u = ground (arith, filter-append t u)

take-take : (n : ℕ) (t u : Text) → length t ≤ n → take (length t) (take n (t ++ u)) ≡ t
take-take n [] u h = refl
take-take zero (c ∷ t) u h = absurd (omega (arith, h))
take-take (suc n) (c ∷ t) u h = ap (λ w. c ∷ w) (take-take n t u (omega (arith, h)))

filter-skip :
    (t v : Text) (c : ℕ)
    → 128 ≤ c
    → filter (λ c. ltb c 128) (t ++ (c ∷ v)) ≡ filter (λ c. ltb c 128) (t ++ v)
filter-skip [] v c h = ground (arith, h)
filter-skip (d ∷ t) v c h = ground (arith, filter-skip t v c h)

-- A password that is sent has at most 64 characters, all of them ASCII. A character beyond ASCII is left
-- out wherever it stands (c between t and v). ASCII characters, up to 64 of them (u), are sent as they
-- were typed: alone they are all that is sent, and with more behind them (v) what is sent starts with
-- them.
pub sanitize_string-IsAscii :
    (t u v : Text) (c : ℕ)
    → 128 ≤ c
    → IsAscii u
    → length u ≤ 64
    → IsAscii (sanitize_string t)
      × (length (sanitize_string t) ≤ 64)
      × (sanitize_string (t ++ (c ∷ v)) ≡ sanitize_string (t ++ v))
      × (sanitize_string u ≡ u)
      × (take (length u) (sanitize_string (u ++ v)) ≡ u)
unfolding sanitize_string
sanitize_string-IsAscii t u v c beyond ascii few = (
  take-IsAscii 64 (filter (λ c. ltb c 128) t) (filter-IsAscii t),
  omega (arith, length-take 64 (filter (λ c. ltb c 128) t)),
  ap (take 64) (filter-skip t v c beyond),
  ap (take 64) (filter-ascii u ascii) ∙ take-short 64 u few,
  ap (λ w. take (length u) (take 64 w))
        (filter-append u v ∙ ap (λ w. w ++ filter (λ c. ltb c 128) v) (filter-ascii u ascii))
      ∙ take-take 64 u (filter (λ c. ltb c 128) v) few,
)

get-add_missing :
    (k : String) (v : Text) (kwargs args : Dict String Text)
    → get k args ≡ some v
    → get k (add_missing kwargs args) ≡ some v
get-add_missing k v [] args h = h
get-add_missing k v ((j, w) ∷ kwargs) args h =
    get-add_missing k v kwargs (if has j args then args else put j w args)
      (ground (arith, h, get-put j k w args, string_eq.beq_iff j k))

-- Whatever arguments a page is given, the argument `view` names the page, and after an error the
-- argument `errored` says so.
pub get-start_args :
    (d : DisplayUriHelper) (errored : Bool) (kwargs : Dict String Text)
    → (get "view" (start_args d errored kwargs) ≡ some (codes (to_view_string d)))
      × (get "errored" (start_args d true kwargs) ≡ some (codes "true"))
unfolding start_args
get-start_args d true kwargs =
    (get-add_missing "view" _ kwargs _ refl, get-add_missing "errored" _ kwargs _ refl)
get-start_args d false kwargs =
    (get-add_missing "view" _ kwargs _ refl, get-add_missing "errored" _ kwargs _ refl)
