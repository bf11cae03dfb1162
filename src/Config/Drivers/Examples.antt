-- ===== src/Config/Drivers/Examples.antt =====
-- Driver names that are accepted and refused.
use cap_protocol.Prelude.{String, Option, none, ◌≡◌, refl, ok, err}
use cap_protocol.Config.{grpc}
use cap_protocol.Config.Drivers.{parse_driver_kind, bad_grpc}
use cap_protocol.Config.Drivers.Hosts.{Url}
use cap_protocol.Config.Drivers.Laws.{IsSafe, parse_driver_kind-IsSafe}

abbrev no_url : String → Option Url
no_url s = none

grpc_accepted :
    parse_driver_kind no_url "grpc:agents.example:50051" ≡ ok (grpc "agents.example:50051")
unfolding parse_driver_kind
grpc_accepted = refl

localhost_refused :
    parse_driver_kind no_url "grpc:localhost:50051" ≡ err (bad_grpc "localhost:50051")
unfolding parse_driver_kind
localhost_refused = refl

-- The host is compared as it is written.
capitals_accepted : parse_driver_kind no_url "grpc:LOCALHOST:1" ≡ ok (grpc "LOCALHOST:1")
unfolding parse_driver_kind
capitals_accepted = refl

parse_driver_kind-IsSafe_example : IsSafe no_url (grpc "agents.example:50051")
parse_driver_kind-IsSafe_example =
    parse_driver_kind-IsSafe no_url "grpc:agents.example:50051" (grpc "agents.example:50051")
      grpc_accepted
