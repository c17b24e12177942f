-- ===== src/Elastic/RunTests.antt =====
-- A run of the choice of a slot and of the lookup, and the instance of the choice's theorem.
use opthash_rs.Prelude.{ℕ, ◌≡◌, refl, arith, some, List, [], ◌∷◌}
use opthash_rs.Prelude.Log.{is_power_of_two, trailing_zeros}
use opthash_rs.Reserve.{default}
use opthash_rs.Control.{is_free}
use opthash_rs.Probe.Mix.{PreparedElasticProbe, prepare_elastic, word_from_counter_base}
use opthash_rs.Probe.Phi.{
  elastic_phi, append_pairs, append_bits, elastic_phi_bounded, spread_low_16,
}
use opthash_rs.Probe.Counter.{elastic_counter_base}
use opthash_rs.Prelude.Log.{bit_length}
use opthash_rs.Elastic.Scheduler.{bootstrap}
use opthash_rs.Elastic.Filter.{prepared_key}
use opthash_rs.Elastic.Level.{Level, new_at, control_at}
use opthash_rs.Elastic.Table.{
  route_prepared, route_prepared_counter, vacancy, route_prepared_counter_for_upper,
}
use opthash_rs.Elastic.Schedule.{level_probe_limit, level_route_count, route_count_loop}
use opthash_rs.Probe.Range.{unbiased_prepared_elastic_probe_index}
use opthash_rs.Elastic.Choose.{
  ExactPlacement, choose_slot_for_new_key, target_vacancy, uniform_vacancy, find_vacancy,
  placement_of,
}
use opthash_rs.Elastic.Chosen.{Chosen, choose_slot-Chosen}

abbrev two_levels : List (Level ℕ ℕ)
two_levels = new_at 8 ∷ new_at 4 ∷ []

abbrev probe_of_seven : PreparedElasticProbe
probe_of_seven = (prepared_key 7).route

abbrev placement_of_seven : ExactPlacement
placement_of_seven = record { level = 0; slot = 5; phi = 13 }

choice_run :
    choose_slot_for_new_key default two_levels probe_of_seven bootstrap ≡ some placement_of_seven
unfolding choose_slot_for_new_key target_vacancy uniform_vacancy find_vacancy placement_of vacancy
    route_prepared_counter_for_upper prepared_key prepare_elastic new_at control_at is_free
    elastic_phi_bounded spread_low_16 elastic_counter_base bit_length word_from_counter_base
    level_probe_limit level_route_count route_count_loop elastic_phi append_pairs append_bits
    route_prepared route_prepared_counter unbiased_prepared_elastic_probe_index is_power_of_two
    trailing_zeros
choice_run = refl

choose_slot-Chosen_example : Chosen two_levels probe_of_seven placement_of_seven
choose_slot-Chosen_example =
    choose_slot-Chosen default two_levels probe_of_seven bootstrap placement_of_seven (omega arith)
      choice_run
