-- ===== src/Samples.antt =====
-- Concrete inputs: the theorems of the library applied to them, and the code run on them.
pub mod Owners
pub mod Gates
pub mod Events
pub mod Json
pub mod Files
pub mod Actions
pub mod Worlds
pub mod Talks
pub mod Reactions
pub mod Normals
pub mod Facts
pub mod Turns
pub mod EnvFiles
pub mod Backends
pub mod Lores
pub mod Quests
use agent_rd.Common.{ℕ, zero, ◌*◌, ◌/◌, String, none, ◌≡◌, Float64, milli_float}
use agent_rd.Domain.Value.{ℤ, pos, negsuc, NumberText}

-- Numbers of thousandths, printed as nothing and never parsed.
abbrev pub milli_int : ℕ → ℤ
milli_int x = pos (x / 1000)

abbrev pub int_milli : ℤ → ℕ
int_milli (pos n) = n * 1000
int_milli (negsuc n) = 0

abbrev pub milli_numbers : NumberText ℕ
milli_numbers = record {
  format = λ x. "";
  format_int = λ n. "";
  parse = λ s. none;
  to_int = milli_int;
  of_int = int_milli;
}
