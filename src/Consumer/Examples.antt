-- ===== src/Consumer/Examples.antt =====
-- Three messages, of which the second is no JSON and its commit is refused; and a connection.
use reflowfy.Prelude.{
  ℕ, true, false, some, List, [], ◌∷◌, ◌++◌, ◌≡◌, ◌≤◌, ◌⊎◌, refl, arith, map, All,
}
use reflowfy.Json.{Json, Fields}
use reflowfy.Json.Dict.{get}
use reflowfy.Consumer.{
  Value, Run, Commit, Fate, Ending, Consumer, Poll, process_message, process_job, handle, goes_on,
  consume_until_stopped, connect,
}
use reflowfy.Consumer.Offsets.{messages_of, Behind, offset_at, offset_of, consume_at_least_once}

abbrev payload : Json
payload = Json.obj (Fields.field "schema_version" (Json.num 2) Fields.end)

abbrev message : ℕ → Value → Commit → Poll
message n v c = record {
  stop_requested = false;
  message = some (record { offset = n; value = v; run = Run.answers false; commit = c });
}

abbrev polls : List Poll
polls =
    message 4 (Value.decoded payload) Commit.done
    ∷ message 5 Value.undecodable Commit.rebalanced
    ∷ message 6 (Value.decoded payload) Commit.done
    ∷ []

abbrev started : Consumer
started = record { committed = 4; fates = [] }

-- The third message is not reached.
ends :
    consume_until_stopped polls started
    ≡ (Ending.ended, record { committed = 5; fates = (4, Fate.job false) ∷ (5, Fate.crashed) ∷ [] })
unfolding consume_until_stopped handle process_message process_job get
ends = refl

gives_up : connect 10 0 (λ n. false) ≡ (false, 511)
unfolding connect
gives_up = refl

consume_at_least_once_example :
    let r = consume_until_stopped polls started in
    ((rest : List ℕ) × (map offset_at r.1.fates ++ rest ≡ map offset_of (messages_of polls))
      × ((rest ≡ []) ⊎ (r.0 ≡ Ending.ended)))
    × (4 ≤ r.1.committed)
    × ((r.1.committed ≡ 4) ⊎ Behind r.1)
    × All (λ x. (r.1.committed ≤ x.0) ⊎ (goes_on x.1 ≡ true)) r.1.fates
unfolding messages_of
consume_at_least_once_example =
    consume_at_least_once polls 4 (omega arith, (omega arith, (omega arith, tt)))
