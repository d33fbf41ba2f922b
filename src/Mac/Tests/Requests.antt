-- ===== src/Mac/Tests/Requests.antt =====
-- Requests to a coordinator of lib/tinymac.c on which the refinement is run.
use tinyhan.Base.{refl, List, [], ◌∷◌, arith}
use tinyhan.Base.Bytes.{read_le}
use tinyhan.Mac.Wire.{payload_uuid}
use tinyhan.Mac.Registry.Members.{IsTable, members}
use tinyhan.Mac.Coordinator.Refines.{
  Request, joins, leaves, serve, Replays, AreNamed, serve_refines,
}
use tinyhan.Mac.Tests.{hub}

-- Two clients register, and the first deregisters.
abbrev requests : List Request
requests =
    joins (5 ∷ 0 ∷ 0 ∷ 0 ∷ 0 ∷ 0 ∷ 0 ∷ 0 ∷ 0 ∷ 0 ∷ [])
    ∷ joins (6 ∷ 0 ∷ 0 ∷ 0 ∷ 0 ∷ 0 ∷ 0 ∷ 0 ∷ 0 ∷ 0 ∷ [])
    ∷ leaves (record { flags = 0; net_id = 1; dest_addr = 0; src_addr = 1; seq = 0 })
        (5 ∷ 0 ∷ 0 ∷ 0 ∷ 0 ∷ 0 ∷ 0 ∷ 0 ∷ [])
    ∷ []

requests-AreNamed : AreNamed requests
unfolding payload_uuid read_le
requests-AreNamed = (omega arith, (omega arith, tt))

hub-IsTable : IsTable hub.nodes
hub-IsTable = record {
  unique = λ j k hj hk e z. absurd (z refl);
  own_addr = λ j hj. refl;
  named = λ j hj h. absurd (cc);
}

serve_refines_example :
    IsTable (serve hub requests).nodes
    × Replays (members hub.nodes) requests (members (serve hub requests).nodes)
serve_refines_example = serve_refines requests hub refl hub-IsTable requests-AreNamed
