-- ===== src/Air/Layout.antt =====
-- The constants and the row and column layout of air/src/lib.rs.
use yaqeen_stark_winterfell.Prelude.{ℕ, ◌+◌, ◌-◌, ◌*◌, ◌&&◌, leb, nat_beq, if◌then◌else◌}

abbrev pub domain_leaf : ℕ
domain_leaf = 1

abbrev pub domain_owner_commitment : ℕ
domain_owner_commitment = 2

abbrev pub domain_nullifier : ℕ
domain_nullifier = 3

abbrev pub domain_node : ℕ
domain_node = 4

abbrev pub tree_depth : ℕ
tree_depth = 25

abbrev pub state_width : ℕ
state_width = 8

abbrev pub rounds : ℕ
rounds = 8

abbrev pub real_job_count : ℕ
real_job_count = 3 + tree_depth

abbrev pub job_count : ℕ
job_count = 32

abbrev pub trace_length : ℕ
trace_length = job_count * rounds

abbrev pub job_owner : ℕ
job_owner = 0

abbrev pub job_leaf : ℕ
job_leaf = 1

abbrev pub job_merkle_first : ℕ
job_merkle_first = 2

abbrev pub job_merkle_last : ℕ
job_merkle_last = job_merkle_first + tree_depth - 1

abbrev pub job_nullifier : ℕ
job_nullifier = job_merkle_last + 1

unfoldable pub job_start_row : ℕ → ℕ
job_start_row job = job * rounds

unfoldable pub job_last_row : ℕ → ℕ
job_last_row job = job * rounds + rounds - 1

abbrev pub s0 : ℕ
s0 = 0

abbrev pub aux_a : ℕ
aux_a = 8

abbrev pub aux_b : ℕ
aux_b = 9

abbrev pub aux_c : ℕ
aux_c = 10

abbrev pub aux_d : ℕ
aux_d = 11

abbrev pub held_secret : ℕ
held_secret = 12

abbrev pub held_pid : ℕ
held_pid = 13

abbrev pub t_owner : ℕ
t_owner = 14

abbrev pub t_leaf : ℕ
t_leaf = 15

abbrev pub t_merkle : ℕ
t_merkle = 16

abbrev pub t_nullifier : ℕ
t_nullifier = 17

abbrev pub rc_bit_0 : ℕ
rc_bit_0 = 18

abbrev pub range_bits : ℕ
range_bits = 32

abbrev pub trace_width : ℕ
trace_width = rc_bit_0 + range_bits

abbrev pub num_transition_constraints : ℕ
num_transition_constraints = 8 + 2 + 4 + 1 + 1 + range_bits + 1

-- The column that a job is pinned to. Jobs past the last are typed as Merkle steps.
unfoldable pub job_type_column : ℕ → ℕ
job_type_column job =
    if nat_beq job job_owner
    then t_owner
    else if nat_beq job job_leaf
    then t_leaf
    else if nat_beq job job_nullifier
    then t_nullifier
    else if leb job_merkle_first job && leb job job_merkle_last
    then t_merkle
    else t_merkle

unfoldable pub row_leaf_first : ℕ
unfolding job_start_row
row_leaf_first = job_start_row job_leaf

unfoldable pub row_merkle_last_output : ℕ
unfolding job_last_row
row_merkle_last_output = job_last_row job_merkle_last

unfoldable pub row_nullifier_first : ℕ
unfolding job_start_row
row_nullifier_first = job_start_row job_nullifier

unfoldable pub row_nullifier_output : ℕ
unfolding job_last_row
row_nullifier_output = job_last_row job_nullifier
