-- ===== src/Types.antt =====
-- pkg/types/request.go: the allocation types.
-- `strings.ToUpper` is a parameter, `to_upper`.
use fa_st_gshare.Common.{Bool, true, false, String, str_eq, List, [], ◌∷◌, if◌then◌else◌}

pub data AllocationType : Type 0 where
  mps fast_pod exclusive none_type : AllocationType

abbrev pub is_mps : AllocationType → Bool
is_mps mps = true
is_mps _ = false

abbrev pub is_fast_pod : AllocationType → Bool
is_fast_pod fast_pod = true
is_fast_pod _ = false

abbrev pub is_exclusive : AllocationType → Bool
is_exclusive exclusive = true
is_exclusive _ = false

abbrev pub is_none_type : AllocationType → Bool
is_none_type none_type = true
is_none_type _ = false

-- The string constants of the type.
unfoldable pub allocation_string : AllocationType → String
allocation_string mps = "MPS"
allocation_string fast_pod = "FASTPOD"
allocation_string exclusive = "EXCLUSIVE"
allocation_string none_type = "NONE"

-- `GetAllocationType`
unfoldable pub get_allocation_type : (String → String) → String → AllocationType
get_allocation_type to_upper s =
    let at = to_upper s in
    if str_eq at "MPS"
    then mps
    else if str_eq at "FASTPOD"
    then fast_pod
    else if str_eq at "EXCLUSIVE"
    then exclusive
    else none_type

-- The method `String`
unfoldable pub display : AllocationType → String
display mps = "MPS"
display fast_pod = "FastPod"
display exclusive = "Exclusive"
display none_type = "Unknown"

-- The method `Values`
unfoldable pub values : List String
unfolding allocation_string
values = allocation_string mps ∷ allocation_string fast_pod ∷ allocation_string exclusive ∷ []
