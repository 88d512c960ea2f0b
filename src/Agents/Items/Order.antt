-- ===== src/Agents/Items/Order.antt =====
-- The outputs of a model that `_validate_model_output` of gh_puller/agent/events.py accepts.
use gh_puller.Agents.Events.{output_rank}
use gh_puller.Archive.Json.{Fields, Json, get}
use gh_puller.Base.{All, List, String, [], some, text_instance, ℕ, ◌++◌, ◌≡◌, ◌≤◌, ◌⊎◌}

-- An object of a type.
abbrev pub IsTyped : String → Json → Type 0
IsTyped kind v = (fs : Fields) × (v ≡ Json.object fs) × (get "type" fs ≡ some (Json.text kind))

abbrev pub Ranked : ℕ → Json → Type 0
Ranked n v = output_rank v ≡ some n

-- Reasoning, then messages, then function calls.
abbrev pub Ordered : List Json → Type 0
Ordered vs =
    (rs : List Json) × (ms : List Json) × (cs : List Json) × (vs ≡ rs ++ (ms ++ cs))
    × All (IsTyped "reasoning") rs
    × All (IsTyped "message") ms
    × All (IsTyped "function_call") cs

-- The type of an item of a rank.
abbrev Kinds : ℕ → Json → Type 0
Kinds n v =
    (IsTyped "reasoning" v × (n ≡ 0))
    ⊎ ((IsTyped "message" v × (n ≡ 1)) ⊎ (IsTyped "function_call" v × (n ≡ 2)))

-- The parts of an output whose ranks start at a number.
abbrev From : ℕ → List Json → Type 0
From low vs =
    (rs : List Json) × (ms : List Json) × (cs : List Json) × (vs ≡ rs ++ (ms ++ cs))
    × All (IsTyped "reasoning") rs
    × All (IsTyped "message") ms
    × All (IsTyped "function_call") cs
    × (1 ≤ low → rs ≡ [])
    × (2 ≤ low → ms ≡ [])
