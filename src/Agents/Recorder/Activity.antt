-- ===== src/Agents/Recorder/Activity.antt =====
-- The methods for model and tool activity, and errors, keep the log of a recorder true to its state.
use gh_puller.Agents.Events.{
  Route, Delta, fold_event, model_delta, model_error, model_request, model_response, session_error,
  tool_end, tool_start,
}
use gh_puller.Agents.Recorder.{Method, Recorder}
use gh_puller.Agents.Recorder.Calls.{
  request_event, clashes, Failure, Usage, call_tool, delta, end_tool, fail, fail_model,
  function_output_item, is_seen, keep_failure, model_request_for, parsed, reason_of, request_model,
  respond, result_meta, start_tool, tool_failure, tool_result,
}
use gh_puller.Agents.Recorder.Faithful.{Scope, Faithful, mark}
use gh_puller.Archive.Action.{lift, raise, Error, ok, pure}
use gh_puller.Archive.Json.{Fields, Json, null}
use gh_puller.Base.{
  Bool, List, Option, String, [], false, if◌then◌else◌, is_none, none, refl, some, text_instance,
  true, ℕ, ◌∷◌,
}
use gh_puller.Agents.Recorder.Keeps.{
  Direct, if-Keeps, event-Keeps, raise-Keeps, Keeps, append_context-Keeps, bind-Keeps, gets-Keeps,
  modify-Keeps, pure-Keeps, quiet-Keeps, then-Keeps,
}

module _ (scope : Scope) (ends : ℕ) (ended : Bool) where
  request_event-Keeps :
      (route : Route) (id : String) (fs : Fields)
      → Direct scope route
      → Keeps scope ends ended (request_event route id fs)
  unfolding request_event
  request_event-Keeps route id fs d =
      if-Keeps scope ends ended (clashes fs) (lift (raise Error.type_error)) _
        (raise-Keeps scope ends ended) (event-Keeps scope ends ended route _ d)

  model_request_for-Keeps :
      (id : String) (fs : Fields) → Keeps scope ends ended (model_request_for id fs)
  unfolding model_request_for fold_event mark
  model_request_for-Keeps id fs =
      then-Keeps scope ends ended (request_event model_request id fs) (pure id)
        (request_event-Keeps model_request id fs ((λ w. refl), (λ w. refl), (λ w. refl)))
        (pure-Keeps scope ends ended id)

  pub request_model-Keeps :
      (id : Option String) (fs : Fields) → Keeps scope ends ended (request_model id fs)
  unfolding request_model
  request_model-Keeps (some id) fs =
      then-Keeps scope ends ended _ _ (modify-Keeps scope ends ended _ (λ r h. h))
        (model_request_for-Keeps id fs)
  request_model-Keeps none fs =
      then-Keeps scope ends ended _ _ (modify-Keeps scope ends ended _ (λ r h. h)) (
        then-Keeps scope ends ended _ _ (modify-Keeps scope ends ended _ (λ r h. h)) (
          bind-Keeps scope ends ended _ _ (gets-Keeps scope ends ended _)
            (λ id. model_request_for-Keeps id fs)))

  pub delta-Keeps :
      (kind : Delta) (id : String) (fs : Fields) → Keeps scope ends ended (delta kind id fs)
  unfolding delta fold_event mark
  delta-Keeps kind id fs =
      request_event-Keeps (model_delta kind) id fs ((λ w. refl), (λ w. refl), (λ w. refl))

  pub respond-Keeps :
      (output : List Json) (id model stop : String) (usage : Usage)
      → Keeps scope ends ended (respond output id model stop usage)
  unfolding respond fold_event mark
  respond-Keeps output id model stop usage =
      then-Keeps scope ends ended _ _ (modify-Keeps scope ends ended _ (λ r h. h))
        (quiet-Keeps scope ends ended model_response _ (refl, refl, refl))

  pub fail_model-Keeps : (e : Failure) (id : String) → Keeps scope ends ended (fail_model e id)
  unfolding fail_model fold_event mark
  fail_model-Keeps e id = quiet-Keeps scope ends ended model_error _ (refl, refl, refl)

  pub start_tool-Keeps :
      (id name : String) (v : Json) → Keeps scope ends ended (start_tool id name v)
  unfolding start_tool fold_event mark
  start_tool-Keeps id name v =
      then-Keeps scope ends ended _ _ (modify-Keeps scope ends ended _ (λ r h. h))
        (quiet-Keeps scope ends ended tool_start _ (refl, refl, refl))

  pub end_tool-Keeps :
      (id : String) (v : Json) (error : Option Json) → Keeps scope ends ended (end_tool id v error)
  unfolding end_tool fold_event mark
  end_tool-Keeps id v none = quiet-Keeps scope ends ended tool_end _ (refl, refl, refl)
  end_tool-Keeps id v (some e) = quiet-Keeps scope ends ended tool_end _ (refl, refl, refl)

  -- A call that does nothing where the tool is known.
  unseen-Keeps :
      (id : String) (m : Method)
      → Keeps scope ends ended m
      → Keeps scope ends ended (λ r. if is_seen id r then (ok tt, r) else m r)
  unseen-Keeps id m k r h = choose (is_seen id r)
    where
      choose : (b : Bool) → Faithful scope ends ended (if b then (ok tt, r) else m r).1
      choose true = h
      choose false = k r h

  pub call_tool-Keeps :
      (loads : String → Option Json) (id name : String) (v : Json)
      → Keeps scope ends ended (call_tool loads id name v)
  unfolding call_tool
  call_tool-Keeps loads id name v =
      unseen-Keeps id (start_tool id name (parsed loads v))
        (start_tool-Keeps id name (parsed loads v))

  pub tool_result-Keeps :
      (str : Json → String) (v : Json) (id name : String) (wrong : Bool)
      → Keeps scope ends ended (tool_result str v id name wrong)
  unfolding tool_result
  tool_result-Keeps str v id name wrong =
      then-Keeps scope ends ended _ _
        (unseen-Keeps id (start_tool id name null) (start_tool-Keeps id name null))
        (then-Keeps scope ends ended _ _ (end_tool-Keeps id v (tool_failure str v wrong))
          (append_context-Keeps scope ends ended (function_output_item id v ∷ []) (some "tool")))

  pub result_meta-Keeps :
      (usage : Usage) (stop : Option String) → Keeps scope ends ended (result_meta usage stop)
  unfolding result_meta
  result_meta-Keeps usage stop = modify-Keeps scope ends ended _ (λ r h. h)

  keep_failure-Faithful :
      (e : Failure) (phase : Option String) (r : Recorder)
      → Faithful scope ends ended r
      → Faithful scope ends ended (keep_failure e phase r)
  keep_failure-Faithful e phase r h = choose (is_none r.reason_code)
    where
      choose :
          (b : Bool)
          → Faithful scope ends ended (
              if b
              then record r {
                reason = some (reason_of e);
                reason_code = some e.code;
                failure_phase = phase;
              }
              else r)
      choose true = h
      choose false = h

  pub fail-Keeps :
      (e : Failure) (part : String) (phase : Option String)
      → Keeps scope ends ended (fail e part phase)
  unfolding fail fold_event mark
  fail-Keeps e part phase =
      then-Keeps scope ends ended _ _
        (modify-Keeps scope ends ended _ (keep_failure-Faithful e phase))
        (quiet-Keeps scope ends ended session_error _ (refl, refl, refl))
