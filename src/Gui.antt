-- ===== src/Gui.antt =====
-- gui: the graphical client without its windows. `Model` and `Application` hold what the client knows,
-- `Events` is what its parts tell each other, `Worker`, `Receiver` and `Controller` talk to the server,
-- `State` brings what arrives into the model, and `VoiceController` starts and stops the voice.
pub mod Model
pub mod Application
pub mod Events
pub mod State
pub mod VoiceController
pub mod Worker
pub mod Controller
pub mod Delivery
