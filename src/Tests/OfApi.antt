-- ===== src/Tests/OfApi.antt =====
-- Examples of clients, requests, errors, logins and polls.
use korai_sdk_go.Prelude.{
  ℕ, ◌+◌, String, ◌≡◌, refl, ◌↔◌, Bool, true, false, Option, none, some, List, [], ◌∷◌, arith, ◌==◌,
  if◌then◌else◌, trim_right_slashes,
}
use korai_sdk_go.Prelude.Int.{pos}
use korai_sdk_go.Prelude.Dict.{insert}
use korai_sdk_go.Stream.{Text, text_eq}
use korai_sdk_go.Api.Errors.{ApiResponse, ErrorLibrary, parse_api_error}
use korai_sdk_go.Api.Errors.Parsed.{Keeps, parse_api_error-Keeps}
use korai_sdk_go.Api.Options.{
  Client, ClientOption, with_base_url, with_api_key, with_max_retries, with_http_client,
  ApiEnvironment, new_client, with_options, made, default_timeout, apply_options, apply_option,
  finalize, seeded,
}
use korai_sdk_go.Api.Options.Precedence.{new_client_lem}
use korai_sdk_go.Api.Options.Owned.{with_options-fresh}
use korai_sdk_go.Api.Exchange.{
  Reply, replied, cancelled_send, exchanged, gen_decode, read_reply, ApiTransport, no_payload,
  payload, answered, default_headers, checked, build_request, do_request, do_raw,
}
use korai_sdk_go.Api.Exchange.Answered.{Accepted, do_request_iff}
use korai_sdk_go.Api.Exchange.Stamped.{IsStamped, build_request-IsStamped}
use korai_sdk_go.Api.Solve.{
  SolveRunDto, SolveRun, SolveRequest, tick, context_done, solve, solve_and_wait,
  is_terminal_solve_status, get_solve_run, unmarshal_run,
}
use korai_sdk_go.Api.Solve.Polls.{now, later, solve_and_wait-Finishes}
use korai_sdk_go.Api.Auth.{AuthCalls, login}
use korai_sdk_go.Api.Auth.Tokens.{Kept, login-Kept}

-- JSON objects of one kind, with a message and no type.
abbrev errors : ErrorLibrary ℕ
errors = record {
  unmarshal_envelope = λ t. some (some 1);
  unmarshal_generic = λ t. none;
  string_field = λ m k. if k == "message" then some (9 ∷ []) else none;
  status_text = λ n. 7 ∷ [];
  atoi = λ s. some (pos 3);
}

abbrev refused : ApiResponse
refused = record { status_code = 429; header = λ k. if k == "Retry-After" then "3" else "" }

parse_api_error-Keeps_example : Keeps errors refused (parse_api_error errors refused (1 ∷ 2 ∷ []))
parse_api_error-Keeps_example =
    parse_api_error-Keeps errors refused (1 ∷ 2 ∷ []) (λ q. ground (arith, q))

abbrev environment : ApiEnvironment
environment = record { api_key = "env-key"; base_url = "https://env.example/" }

abbrev any_server : String → Bool
any_server s = true

abbrev some_options : List (ClientOption ℕ)
some_options = with_api_key "key" ∷ with_base_url "https://staging.example//" ∷ []

new_client_lem_example :
    ((new_client any_server 0 environment some_options).base_url ≡ "https://staging.example")
    × ((new_client any_server 0 environment some_options).api_key ≡ "key")
unfolding trim_right_slashes
new_client_lem_example = new_client_lem any_server 0 environment some_options

abbrev client : Client ℕ
client = new_client any_server 0 environment some_options

with_options-fresh_example :
    (with_options any_server (with_max_retries (pos 0) ∷ []) client).http_client
    ≡ some (made default_timeout)
unfolding with_options new_client apply_options apply_option finalize seeded
with_options-fresh_example =
    with_options-fresh any_server (with_max_retries (pos 0) ∷ []) client refl

-- A nil client counts as the caller's in every copy, although the SDK has made and wrapped it.
nil_client_keeps_retrying :
    (with_options {Store = ℕ} any_server
      (with_max_retries (pos 0) ∷ [])
      (new_client any_server 0 environment (with_http_client none ∷ []))).http_client
    ≡ some (record (made default_timeout) { retries = some (pos 2) })
unfolding with_options new_client apply_options apply_option finalize seeded
nil_client_keeps_retrying = refl

abbrev accepts : String → String → Bool
accepts method url = true

-- A server that answers every request with the same bytes, and counts them.
abbrev answering : Text → ApiTransport
answering content = record {
  State = ℕ;
  send = λ n req. (
    replied (record {
      response = record { status_code = 200; header = λ k. "" };
      content = content;
      broken = false;
    }),
    n + 1,
  );
}

abbrev first_of : Text → Option ℕ
first_of [] = none
first_of (c ∷ cs) = some c

do_request_iff_example :
    (do_request errors accepts (answering (5 ∷ [])) client "GET" "/x" no_payload 0 first_of 0
      ≡ (answered 5, 1))
    ↔ ((r : Reply) × (do_raw errors accepts (answering (5 ∷ [])) client "GET" "/x" no_payload 0
          ≡ (answered r, 1))
        × Accepted errors 0 first_of r 5)
do_request_iff_example =
    do_request_iff errors accepts (answering (5 ∷ [])) client "GET" "/x" no_payload 0 5 first_of 0 1

build_request-IsStamped_example : IsStamped accepts client "/x" (record {
  method = "POST";
  url = "https://staging.example/x";
  headers = insert "Content-Type" "application/json" (default_headers client);
  body = some (1 ∷ []);
})
unfolding build_request checked new_client apply_options apply_option finalize seeded
    trim_right_slashes
build_request-IsStamped_example =
    build_request-IsStamped accepts client {Raw = ℕ} "POST" "/x" (payload (some (1 ∷ []))) _ refl

-- A server that answers the n-th request with n, and runs that are finished from the third on.
abbrev counting : ApiTransport
counting = record {
  State = ℕ;
  send = λ n req. (
    replied (record {
      response = record { status_code = 200; header = λ k. "" };
      content = n ∷ [];
      broken = false;
    }),
    n + 1,
  );
}

abbrev run_dto : Text → Option SolveRunDto
run_dto t = some (record {
  run_id = "r";
  status = if text_eq t (2 ∷ []) then "done" else "running";
  model = "max";
  result = t;
  error = [];
  usage = record { prompt_tokens = 1; completion_tokens = 2 };
})

abbrev request : SolveRequest ℕ ℕ
request = record { model = "auto"; stream = true; messages = 1 ∷ []; rest = 0 }

abbrev marshalled : SolveRequest ℕ ℕ → Option Text
marshalled req = some (4 ∷ [])

abbrev run_of : ℕ → String → SolveRun
run_of n status = record {
  run_id = "r";
  status = status;
  model = "max";
  result = n ∷ [];
  error = [];
  prompt_tokens = 1;
  completion_tokens = 2;
}

solve_and_wait-Finishes_example :
    solve_and_wait errors accepts counting client run_dto marshalled
      (tick ∷ tick ∷ context_done ∷ [])
      request
      0
    ≡ some (record { run = some (run_of 2 "done"); error = none }, 3)
unfolding solve is_terminal_solve_status get_solve_run unmarshal_run do_request text_eq exchanged
    build_request checked gen_decode read_reply
solve_and_wait-Finishes_example =
    solve_and_wait-Finishes errors accepts counting client run_dto marshalled 2 request
      (run_of 0 "running") (run_of 2 "done") 0 1 3 (context_done ∷ []) refl refl
      (later {run' = run_of 1 "running"} {st' = 2} refl refl (now refl refl))

abbrev calls : AuthCalls ℕ ℕ ℕ
calls = record {
  login =
      λ c raw n. counting.send n (record { method = "POST"; url = "u"; headers = []; body = none });
  signup = λ c raw n. (cancelled_send, n);
  get_current_user = λ c n. (cancelled_send, n);
  marshal_credentials = λ email password. some (1 ∷ []);
  marshal_register = λ fields. none;
  unmarshal_login = λ t. some (record { user = none; token = "token" });
  unmarshal_user = λ t. some none;
}

login-Kept_example :
    Kept errors accepts counting calls client
      (login errors accepts counting calls "a@b.c" "secret" client 0).0
      (login errors accepts counting calls "a@b.c" "secret" client 0).1
login-Kept_example = login-Kept errors accepts counting calls "a@b.c" "secret" client 0

-- The token of the response is the one that the client has afterwards.
token_is_kept : (login errors accepts counting calls "a@b.c" "secret" client 0).1.api_key ≡ "token"
unfolding login gen_decode read_reply
token_is_kept = refl
