-- ===== src/Hmi.antt =====
-- The human-machine interface of a controller: plugins/basic/src/hmi_contact.hpp. A switch and a
-- push button act on a variable of the program through the functions they are made with; `X` is the
-- type of that variable. `none` is a failed assertion.
pub mod Switches
pub mod Buttons
pub mod Repeats
pub mod Rounding
mod Examples
