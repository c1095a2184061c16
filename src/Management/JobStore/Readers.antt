-- ===== src/Management/JobStore/Readers.antt =====
-- internal/backend, ReadLogs of the two backends: what a read of a runner's log gives, of all that
-- the runner has written. Docker gives all of it (docker.go), tart the last lines that
-- `tail -n 5000` prints (tart.go).
use elastic_fruit_runner.Base.{
  ℕ, suc, ◌≤◌, ◌≡◌, refl, [], ◌∷◌, ◌++◌, arith, eqb, leb, if◌then◌else◌,
}
use elastic_fruit_runner.Storage.Jobs.{Bytes}

-- The two implementations of Diagnostics.
pub data Reader : Type 0 where
  docker_reader tart_reader : Reader

-- A line ends with its newline, the last one also without.
unfoldable pub line_count : Bytes → ℕ
line_count [] = 0
line_count (b ∷ []) = 1
line_count (b ∷ c ∷ bs) = let rest = line_count (c ∷ bs) in if eqb b 10 then suc rest else rest

-- tail -n
unfoldable pub last_lines : ℕ → Bytes → Bytes
last_lines n [] = []
last_lines n (b ∷ bs) =
    let shorter = last_lines n bs in if leb (line_count (b ∷ bs)) n then b ∷ bs else shorter

-- DockerBackend.ReadLogs
abbrev pub docker_read_logs : Bytes → Bytes
docker_read_logs log = log

-- TartBackend.ReadLogs
abbrev pub tart_read_logs : Bytes → Bytes
tart_read_logs log = last_lines 5000 log

unfoldable pub read_logs : Reader → Bytes → Bytes
read_logs docker_reader log = docker_read_logs log
read_logs tart_reader log = tart_read_logs log

-- The reads of the log are whole: always with docker, up to 5000 lines with tart.
abbrev pub IsRead : Reader → Bytes → Type 0
IsRead docker_reader log = Unit {0}
IsRead tart_reader log = line_count log ≤ 5000

line_count_some : (b : ℕ) (bs : Bytes) → 1 ≤ line_count (b ∷ bs)
unfolding line_count
line_count_some b [] = omega arith
line_count_some b (c ∷ bs) = ground (arith, line_count_some c bs)

line_count-append : (xs ys : Bytes) → line_count xs ≤ line_count (xs ++ ys)
unfolding line_count
line_count-append [] ys = omega arith
line_count-append (b ∷ []) ys = line_count_some b ys
line_count-append (b ∷ c ∷ bs) ys = ground (arith, line_count-append (c ∷ bs) ys)

last_lines_whole : (n : ℕ) (log : Bytes) → line_count log ≤ n → last_lines n log ≡ log
unfolding last_lines
last_lines_whole n [] h = refl
last_lines_whole n (b ∷ bs) h = ground arith

pub read_logs_whole : (r : Reader) (log : Bytes) → IsRead r log → read_logs r log ≡ log
unfolding read_logs
read_logs_whole docker_reader log h = refl
read_logs_whole tart_reader log h = last_lines_whole 5000 log h

pub IsRead-append : (r : Reader) (xs ys : Bytes) → IsRead r (xs ++ ys) → IsRead r xs
IsRead-append docker_reader xs ys h = tt
IsRead-append tart_reader xs ys h = let shorter = line_count-append xs ys in omega arith
