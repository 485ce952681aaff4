-- ===== src/Tests/Handshake.antt =====
-- A handshake with a guacd that announces four parameters.
use waas.Prelude.{◌≡◌, refl, List, [], ◌∷◌, some, Bytes, codes, arith, equal, has_prefix}
use waas.Guac.Decimal.{pos}
use waas.Guac.Instruction.{read_instruction, IsInstruction}
use waas.Guac.Instruction.Ascii.{IsElement-of_ascii}
use waas.Guac.Handshake.{ConnectionParams, Conn, param_value, instruction, handshake}
use waas.Guac.Handshake.Order.{script, announced, IsFollowed, greeting, handshake-IsFollowed}

abbrev desktop : ConnectionParams
desktop = record {
  protocol = codes "vnc";
  hostname = codes "ws-1";
  port = pos 5901;
  username = codes "ada";
  password = codes "pw";
  extra = λ name. some (codes "evil");
  width = pos 0;
  height = pos 800;
  dpi = pos 96;
  client_layout = [];
}

abbrev parameters : List Bytes
parameters = codes "VERSION_1_5_0" ∷ codes "hostname" ∷ codes "port" ∷ codes "password" ∷ []

parameters-IsInstruction : IsInstruction (instruction (codes "args") parameters)
parameters-IsInstruction = record {
  opcode_fits = IsElement-of_ascii (codes "args") (omega arith) (omega arith);
  args_fit = (
    IsElement-of_ascii (codes "VERSION_1_5_0") (omega arith) (omega arith),
    (
      IsElement-of_ascii (codes "hostname") (omega arith) (omega arith),
      (
        IsElement-of_ascii (codes "port") (omega arith) (omega arith),
        (IsElement-of_ascii (codes "password") (omega arith) (omega arith), tt),
      ),
    ),
  );
}

ready-IsInstruction : IsInstruction (instruction (codes "ready") (codes "$id" ∷ []))
ready-IsInstruction = record {
  opcode_fits = IsElement-of_ascii (codes "ready") (omega arith) (omega arith);
  args_fit = (IsElement-of_ascii (codes "$id") (omega arith) (omega arith), tt);
}

host_kept : param_value desktop (codes "hostname") ≡ codes "ws-1"
unfolding param_value equal has_prefix
host_kept = refl

abbrev broken : Conn
broken = record { input = codes "4.args,8.hostname;"; output = []; writes_left = 3 }

handshake-IsFollowed_example :
    IsFollowed []
      (script desktop (announced (read_instruction (codes "4.args,8.hostname;"))))
      (handshake desktop broken)
handshake-IsFollowed_example = handshake-IsFollowed desktop broken

abbrev answering : Conn
answering = greeting parameters (codes "$id" ∷ []) (codes "4.sync") [] 0
