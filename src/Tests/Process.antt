-- ===== src/Tests/Process.antt =====
-- A start of the order service in which Redis answers and the port is taken.
use micromart.Prelude.{◌≡◌, Bool, true, false, []}
use micromart.Process.{Surroundings, Attempt, listen, database}
use micromart.Process.Programs.{order_service, main_of}
use micromart.Process.Order.{order_main}
use micromart.Process.Closing.{Leaves}
use micromart.Process.Closed.{main_of-Leaves}
use micromart.Process.ServingRules.{has_served}
use micromart.Process.Serving.{can_serve, main_of-has_served}
use micromart.Process.Resumed.{resumed_first, order_main-resumed_first}

abbrev port_is_taken : Attempt → Bool
port_is_taken (listen port) = false
port_is_taken _ = true

abbrev second_instance : Surroundings
second_instance = record { getenv = λ key. key; answers = port_is_taken }

main_of-Leaves_example : Leaves 1 0 (main_of order_service second_instance [])
main_of-Leaves_example = main_of-Leaves second_instance database tt order_service

main_of-has_served_example :
    has_served (main_of order_service second_instance []).1
    ≡ can_serve order_service second_instance
main_of-has_served_example = main_of-has_served second_instance order_service

order_main-resumed_first_example : resumed_first (order_main second_instance []).1 ≡ true
order_main-resumed_first_example = order_main-resumed_first second_instance
