-- ===== src/Tests/Commands.antt =====
-- The command that asks for credentials.
use oes_birger.Prelude.{refl}
use oes_birger.GetCreds.{Flags, ControlRequest, request_of, get_service}
use oes_birger.GetCreds.Accepted.{IsServed, request_of-IsServed}

abbrev flags : Flags
flags = record {
  url = "https://control";
  endpoint_name = "ci";
  agent_identity = "agent1";
  endpoint_type = "jenkins";
  action = "service";
}

abbrev request : ControlRequest
request = get_service flags

request_of-IsServed_example : IsServed request
unfolding request_of
request_of-IsServed_example = request_of-IsServed flags request refl
