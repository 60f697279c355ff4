-- ===== src/Lib.antt =====
-- Buckey is a personal assistant: a process that keeps a list of services (speech recognition,
-- speech) and a list of modes (which understand commands), takes commands from a UNIX socket,
-- and answers on the console, on the socket and by speech.
--
-- Common.antt: helpers. Socket.antt: the socket thread Buckey::manageUnixSocket of
-- src/core/Buckey.cpp as a fold over what poll, accept and recv return; Socket/Lines.antt has
-- its line splitter, Socket/Client.antt the client of src/main.cpp, and Socket/Wedge.antt its
-- over-long lines. Texts are lists of bytes there, and the count of bytes is an int.
-- Events.antt: the class EventSource of src/core/EventSource.cpp, its listeners and threads,
-- one record; Events/Listeners.antt, Ids.antt, Board.antt and Refinement.antt are about its listeners,
-- Threads.antt about its threads, where killThreads is one step, and Shutdown.antt about the steps
-- of the manager thread, the destructor and one listener in any order. The sweep over finished
-- threads has one unit of fuel for each thread and one for the last look.
-- Registry.antt: the lists of services and modes in src/core/Buckey.cpp. A class of services or
-- modes is a parameter, a record of its virtual methods, which can change their object and the
-- hub of events and log. Services.antt and Modes.antt have the operations (registerService,
-- enableMode, ...), Entries.antt what a loop over entries changes, Control.antt the operations
-- on services, Listing.antt the lists of names, Saved.antt and Flags.antt the files of enabled
-- names, Reload.antt Buckey::reload, Shutdown.antt the destructor.
-- Decoder.antt: src/sphinx/SphinxDecoder.cpp over pocketsphinx as a parameter, whose null
-- pointers are options, with Machine.antt about sequences of calls and Updates.antt about
-- updates and utterances.
-- Console.antt: Buckey::reply and CoreMode::input (src/core/CoreMode.cpp), with Replies.antt
-- and Commands.antt about them. Characters of a message are bytes there.
-- Speech.antt: src/tts/MimicTTSService.cpp for one caller at a time, with Prepared.antt about
-- the list of prepared audio, Playing.antt about speak, and Calls.antt and Silence.antt about
-- the calls in any order, but for start and speakPreparedSpeech.
-- Dispatch.antt: passInput, watchInputQue, promptConfirmation and passCommand of
-- src/core/Buckey.cpp, with Queue.antt about the queue of inputs and Tags.antt about the mode
-- that gets a command, and Echo.antt the command of src/core/EchoMode.cpp.
-- Filters.antt: the helpers of src/filters/StringHelper.cpp and the filter of words of
-- src/filters/PerWordSingleReplacementFilter.cpp, with Trimming.antt and Searching.antt about
-- them, and Rules.antt the constructor that reads the dictionary, over what std::regex does.
-- Recognizer.antt: the recognition service of src/sphinx/SphinxService.cpp over its decoders.
-- Continuous.antt and PressToSpeak.antt have the two loops, one pass a step over what is read;
-- Hypotheses.antt the threads that end utterances, each of which runs at once; Control.antt the
-- calls that start, stop, pause and record; Words.antt and Apply.antt the words and the
-- updates, for fewer than 2 ^ 16 decoders. The rounds of applyUpdates and the wait of
-- wordExists have fuel, which is proved enough where they end. Runs.antt puts the steps of all
-- threads in any order; Valid.antt, Speech.antt, Sound.antt, Loops.antt, Steps.antt,
-- Pressing.antt, Calls.antt, Rounds.antt and Started.antt carry its invariant. Done.antt,
-- Turns.antt, Passes.antt and Applied.antt are about applyUpdates, Closing.antt and Ending.antt
-- about the end of the loops, Recovery.antt about decoders in error, Hanging.antt about waits.
-- Prompts.antt has the handlers of prompts. A reload is one step there, so that it does not
-- overlap a pass.
-- Sounds.antt: playSoundEffect of src/core/Buckey.cpp.
-- SphinxMode.antt: the commands of src/sphinx/SphinxMode.cpp on that service, with Toggle.antt.
-- RootGrammar.antt: the root grammar in src/core/Buckey.cpp and setVariable of
-- src/core/DynamicGrammar.cpp over the library of grammars, whose rules are shared objects in a
-- store; Removal.antt states what the library promises, Adding.antt and Restored.antt are about
-- adding a mode and removing it. RootGrammar/CoreMode.antt has updateGrammar and initFinished of
-- src/core/CoreMode.cpp on it, with Values.antt about what the shared rules keep and Updates.antt
-- about the two lists; RootGrammar/Modes.antt the start and stop of the core mode, of
-- src/sphinx/SphinxMode.cpp and of src/core/EchoMode.cpp, with Listening.antt and Stopped.antt.
-- Variables.antt: the constructors of src/core/DynamicGrammar.cpp, whose walk renames references in
-- a tree, with Renaming.antt about the names and Missed.antt about those that setVariable looks for.
-- Startup.antt: main and setupDirectories of src/main.cpp over the library of files and getopt, with
-- Directories.antt, Clearing.antt and Precedence.antt about them. Startup/Loops.antt has the loops
-- that read commands and the handler of signals, with Turns.antt and Stopping.antt;
-- Startup/Processes.antt the processes with their lock in any order of steps, with Exclusion.antt.
--
-- Not modelled: audio devices and files beyond what is read from them, the regular expressions
-- of std::regex, which are parameters, the configuration file, and the set-up of SDL and of the
-- socket. Logging to syslog is left out, and so are listeners that call back while an operation
-- runs. What send answers to a reply is ignored, as in
-- the program. A call or a pass of the recognition service is one step.
pub mod Common
pub mod Socket
pub mod Events
pub mod Recognizer
pub mod SphinxMode
pub mod Sounds
pub mod Startup
pub mod RootGrammar
pub mod Variables
pub mod Registry
pub mod Decoder
pub mod Console
pub mod Speech
pub mod Dispatch
pub mod Filters
