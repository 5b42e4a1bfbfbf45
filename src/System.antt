-- ===== src/System.antt =====
-- What the server program does outside its memory. `W` is the state of the world: the files, the
-- database and the network. An `Io` runs on the memory and the world.
pub mod Directories
pub mod Ends
pub mod Ensures
pub mod Files
pub mod Sockets
pub mod Tls
use sleepytext.Memory.{Mem, Action, Outcome, fault, out_of_fuel, ok}

pub data Reply (W A : Type 0) : Type 0 where
  crashed : Reply W A
  unfinished : Reply W A
  done : A → Mem → W → Reply W A

abbrev pub Io : Type 0 → Type 0 → Type 0
Io W A = Mem → W → Reply W A

abbrev pub continue : {W A B : Type 0} → (A → Io W B) → Reply W A → Reply W B
continue rest (done a m w) = rest a m w
continue rest crashed = crashed
continue rest unfinished = unfinished

infixl 5 ◌>>=◌
abbrev pub ◌>>=◌ : {W A B : Type 0} → Io W A → (A → Io W B) → Io W B
◌>>=◌ first rest m w = continue rest (first m w)

infixl 5 ◌>>◌
abbrev pub ◌>>◌ : {W A B : Type 0} → Io W A → Io W B → Io W B
◌>>◌ first second = first >>= λ ignored. second

abbrev pub return : {W A : Type 0} → A → Io W A
return a m w = done a m w

abbrev pub outcome : {W A : Type 0} → W → Outcome A → Reply W A
outcome w (ok a m) = done a m w
outcome w fault = crashed
outcome w out_of_fuel = unfinished

-- An action on the memory alone.
abbrev pub local : {W A : Type 0} → Action A → Io W A
local action m w = outcome w (action m)

-- A call that answers and changes the world alone.
abbrev pub world : {W A : Type 0} → (W → A × W) → Io W A
world call m w = let (a, w') = call w in done a m w'

-- What the world holds is read.
abbrev pub look : {W A : Type 0} → (W → A) → Io W A
look read m w = return (read w) m w
