-- ===== src/Lib.antt =====
-- Cloe: the simulation engine and the parts around it.
--
-- Engine models the simulation engine of engine/src. Types holds the state names of
-- simulation_machine.hpp, the outcomes of simulation_outcome.hpp, the clock of simulation_sync.hpp
-- and the classes of exceptions; Context the SimulationContext together with what the machine
-- remembers. Monad has the actions: a function of the context that returns, throws, or ends the
-- process, where what was written before a throw stays. Foreach is simulation_context.cpp. The
-- files of States hold one function for each state, named after the state with _impl, as in
-- simulation_state_*.cpp: Setup the ones before the loop, Stepping the loop, Ending the others.
-- Machine has run, run_state, push_interrupt, handle_interrupt and run_machine of
-- utility/state_machine.hpp and simulation_machine.hpp, and Simulation::run of simulation.cpp.
-- Keeps, States/Writes and Machine/Rule are the rules for invariants, from the single write up to
-- the run. The properties stand in Clock (the simulation time), Outcome and Decision (ctx.outcome),
-- Graph (the successors of the states), CatchUp (the retries of a controller) and Ended (the result
-- of a run). Execution opens the definitions for concrete runs.
--
-- Everything outside of the engine, plugins above all, is a World: a state of its own, and an
-- answer to each call, which may throw, end the process, or act on the engine as the actions of
-- simulation_actions.hpp do. The machine runs on fuel, since a simulation need not end; a run that
-- has used up its fuel says so, and a statement about every amount of fuel is one about the run at
-- all times. A retry limit of less than 0 leaves the wait for a controller without an end; it is
-- followed for as many calls as `patience` says, a field of Config that the source does not have,
-- and is then taken as a process that is ended from outside.
--
-- Triggers models runtime/include/cloe/trigger.hpp and registrar.hpp, the timed triggers of
-- engine/src/simulation_events.hpp, and engine/src/coordinator.cpp. Direct is the walk of
-- DirectCallback::trigger, with undefined behaviour as a result of its own; History is
-- Coordinator::execute_trigger; Timed is TimeCallback over a priority queue, which is an interface
-- that ListQueue implements, and Draining what its loop does. An action that runs may insert
-- triggers into the list or the queue that is walked, as those of Lua do, so that both loops have
-- fuel: one more than the number of stored triggers is enough where none is inserted into the list,
-- or none that is due into the queue. Coordinator has the registration, the input queue and the
-- storage, and Conservation follows the queued triggers into the storage; no callback of the
-- repository throws a TriggerError when it stores a trigger, and its handler in store_trigger is
-- left out. Transition is the event of runtime/include/cloe/trigger/transition_event.hpp. Actions
-- has the bundles and the actions that insert triggers, of
-- runtime/src/cloe/trigger/example_actions.cpp, as trees with a pointer that a move empties.
--
-- Watchdog, in Engine, is run_state_async of simulation_machine.hpp, over the list of what its
-- waits report; the machine itself is modelled with the watchdog off. Registrar has the prefixes of
-- engine/src/registrar.hpp.
--
-- Vehicles, in Engine, is the resolution of the vehicles in simulation_state_connect.cpp by itself,
-- with their prototypes, as Setup has it with the calls of the models: each round of its loop makes
-- a vehicle, reports or stops, so that one more round than there are vehicles is enough. Components
-- is the loop over the components of one vehicle in the same file, with the same fuel.
-- Stack/Consistency is Stack::check_consistency of stack/src/cloe/stack.cpp, whose result is what
-- Connect works with: Resolved and OnePass follow the vehicles from the one to the other.
--
-- Broker models runtime/include/cloe/data_broker.hpp. Types has the state, in which pointers and
-- addresses are numbers, Results the chains of calls that throw, Signals the declaration and naming
-- of signals and the life of containers, Access reading, writing, subscribing and the properties of
-- Lua. Linked is the invariant of accessors, containers and names, with a child for each group of
-- operations; Reach has what can be done with a broker; Writes, Names and Moves have the
-- properties; Spec is a registry of cells without pointers, and Refines the relation to it. A
-- subscriber is a number, and its calls are recorded. The move onto a container that has a signal
-- already is no step of Reach; Moves shows why.
--
-- Oak/Muxer is oak/include/oak/route_muxer.hpp, with the paths of the standard library as an
-- argument; the fuel of its loop is one more than the length of the normal form. Fable/Environment
-- is fable/src/fable/environment.cpp: scan is the loop of interpolate, which takes evaluate as a
-- function, and the fuel counts the levels of the recursion; Templates has the texts that it is
-- meant for and what they mean. Strings is fable/src/fable/utility/string.cpp; a turn of its loop
-- takes a separator off, so that as many turns as the text is long are enough. In all of them a
-- text is a list of its code units (Prelude/Texts).
--
-- Fable/Json has the values of the JSON library as data, with the types of
-- fable/include/fable/json.hpp. Fable/Schema is fable/include/fable/schema and
-- fable/src/fable/schema. A schema is a record of what the class overrides (type, is_variant,
-- is_required, json_schema, validate), and each class is a record of its members with a function
-- into it. Interface has the calls that all schemas share, with the error that validate is passed
-- and the exceptions; Casts is is_cast_safe of utility/templates.hpp; Number, Scalars (boolean,
-- string, enum, const, ignore), Containers (optional, vector, array, map), Composed (struct,
-- variant), Duration and Factory are the files of these names. What json_schema gives is a
-- Document, a tree of the keywords, and Accepts is the meaning that draft 07 of JSON schemas gives
-- it, by which 7.0 is an integer and the length of a text is counted in characters; a value that
-- `fits` has no such float and no text that is not ASCII. The files named Agreement and Judged, and
-- Plain, relate the two, one constructor at a time; Refusals has the schemas that are left out of
-- that. Values has serialize and deserialize, ReadBack the round trips; Objects has from_conf and
-- to_json over a pointer into an object, which is a pair of a reader and a writer, and
-- confable.cpp, Ready what is read, Written what is written into an object and Loads and Loading
-- what is loaded. The maps and the regular expressions of the standard library are association
-- lists and arguments, the interpolation of texts is an argument, and no schema needs fuel, since a
-- struct holds the schemas of its properties as functions.
--
-- Models has the actuation level and state of models/ (Actuation), the tracker of unique ids of
-- runtime/src/cloe/utility (UidTracker) and the step of a vehicle of runtime/src/cloe/vehicle.cpp
-- (Vehicle), with the rest of that file and of vehicle.hpp in Vehicle/Components. Engine/Progress
-- is utility/progress.hpp and simulation_progress.hpp of engine/src, with the wall clock as an
-- argument of each call, and Counting and Reports count the reports of a run. Hmi has the contacts
-- of plugins/basic/src/hmi_contact.hpp, with Repeats on a button that is held. Prelude has the
-- shared tests, lists and maps. The files named Examples and Tests hold concrete runs.
--
-- Numbers are natural numbers: steps, times in nanoseconds and ids do not reach the limit of their
-- machine type, but for the schemas of numbers, whose machine integers wrap around. Doubles are
-- left abstract or counted in thousandths. Not modelled are logging, statistics and the wall clock;
-- the phases of Connect that construct no model, and the components of a vehicle, each of which is
-- one call out; the web server beyond its muxer; of fable the texts of errors and of the usage, the
-- schemas of paths and the passed-through and custom ones, and the pointers of Conf; the schemas of
-- the stack; the metadata and the descriptors of signals, Lua beyond the properties of signals, the
-- command line, and the plugins.
pub mod Prelude
pub mod Broker
pub mod Engine
pub mod Models
pub mod Hmi
pub mod Triggers
pub mod Stack
pub mod Oak
pub mod Fable
