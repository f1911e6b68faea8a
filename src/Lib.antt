-- ===== src/Lib.antt =====
-- A model of the editing core of wxExtension, checked by its theorems.
--
-- The parts and how they interact:
-- * ExStream (src/vi/ex-stream.cpp, src/vi/ex-stream-line.cpp): the ex commands on a file that is
--   too large to be loaded. A command reads the stream char by char into a line buffer, hands each
--   line to a line handler, which writes it, changed or not, to a temporary file, and then copies
--   that file back. ExStream/Line is class ex_stream_line: its constructors are new_action,
--   new_insert, new_substitute and new_yank, and its method is handle. ExStream/Scan is the loop of
--   the macro STREAM_LINE_ON_CHAR. ExStream/State is the members of class ex_stream, with the
--   content of the three files; ExStream/Stream is the reading part of a file stream.
--   ExStream/Navigate is get_next_line, get_previous_line, filter_line and goto_line.
--   ExStream/Commands is copy (copy_temp_work, copy_work_file), erase (erase_lines), insert_text,
--   join (join_lines), substitute (substitute_lines), both write methods (write_file, write_lines),
--   yank (yank_lines), stream and the markers. ExStream/Requests is find and get_line_count_request.
--   ExStream/Scan/Split says what the commands should do with a list of lines, with no buffer in it,
--   and ExStream/Scan/Rewrite that for a regular expression, which is a parameter.
-- * HexMode (src/factory/hexmode.cpp, src/stc/hexmode.cpp, src/stc/hexmode-line.cpp): a buffer of
--   bytes that is shown as rows of hex codes and chars. HexMode/Layout is class factory::hexmode
--   (line, lines, printable), HexMode/Fields and HexMode/Edit are class hexmode_line (the two fields
--   of a byte, the index into the buffer, erase, insert, replace), HexMode/Buffer is class hexmode
--   (append_text, set_text, sync, set_mode for set, undo), as is HexMode/Target (highlight_other,
--   replace_target). What the component is told is a list of effects.
-- * Macros (src/vi/macros.cpp, src/vi/macro-fsm.cpp, src/vi/macro-mode.cpp, src/vi/variable.cpp).
--   Macros/Registers is get_register and set_register, which the yank writes to. Macros/Store is the
--   rest of class macros on maps of names (find_macro for find, erase_macro, save_macro, set_entry
--   for set, get_names for get, starts_with). Macros/Fsm is class macro_fsm: record_macro, recorded,
--   enter_recording for state(RECORDING), playback, and macros::record (record_text).
--   Macros/Template is expand_template and read_variable. Macros/Mode is macro_mode::transition
--   (transition_macro). Macros/Variable is what class variable reads from and saves to a node.
-- * Address (src/vi/address.cpp, src/vi/addressrange.cpp): Address/Line is get_line and set_line
--   with the two searches, Address/Range the constructors of class addressrange, set and is_ok,
--   Address/Replacement is build_replacement, and Address/Global the global command with class
--   global_env. Address/Commands is the commands of an address, with parse (parse_address),
--   Address/RangeCommands those of a range (erase_range, move_range and the like) on the registers
--   of Ex/Buffers, and Address/RangeParse the sort, the write and parse (parse_range) of a range.
-- * Ex (src/vi/ex.cpp, src/vi/util.cpp): Ex/Command is ex::command (run_command) with
--   command_handle and command_address, which give the command to a handler, an address or a range;
--   Ex/Buffers is the registers that deletes and yanks write; Ex/Markers is the markers of a visual
--   component; Ex/Expansion is marker_and_register_expansion.
-- * Substitute (src/data/substitute.cpp): the pattern, replacement and options that the text of a
--   substitution or global command holds. Address/Substitution is addressrange::substitute, which
--   takes them (substitute_range, with the loop substitute_matches).
-- * ExCommand (src/factory/ex-command.cpp): the text of a command as it is typed in a text entry.
-- * Sort (src/factory/sort.cpp): sort::string (sort_string) for whole lines and for columns;
--   Sort/Selection is sort::selection.
-- * Core/Text (src/core/util.cpp): the functions on texts that the others share, such as before,
--   after, auto_complete_text and get_endoftext.
-- * Vi (src/vi/vi.cpp, include/wex/vi.h): the keys and commands of vi. Vi/Component is the state
--   of class vi, and all around it as one interface; Vi/Count is filter_count, set_last_command and
--   append_insert_command (append_command). Vi/Methods is delete_range, put, visual_extend and what
--   the mode calls back. Vi/Motions and Vi/MotionTable are the macro MOTION and the table
--   m_motion_commands, Vi/OtherActions and Vi/Others the table m_other_commands. Vi/Insert is
--   insert_mode, insert_mode_normal and command_reg. Vi/MotionCommand is motion_command, Vi/Parse is
--   other_command, parse_command and command, which use ViMode for the mode; Vi/Keys is on_char and
--   on_key_down.
-- * Shell (src/stc/shell.cpp): a component with a prompt. Shell is the command that is typed
--   (process_char_default, process_delete, expand, Paste as paste) and the prompt; Shell/History is
--   the history of commands, process_char, and the keys (press) of the handler in the constructor.
-- * Completion (src/stc/scope.cpp): class scope, the names that are known at each fold level.
-- * FileSearch (src/common/stream.cpp): find and replace in the lines of a file (run_tool,
--   process, process_begin, replace_all).
-- * ViMode (src/vi/mode.cpp): ViMode/Machine is the state machine vi_fsm, with an event that goes
--   outwards through the nested states, ViMode/Transition is vi_mode::transition. What is called
--   outside is a list of effects.
--
-- Conventions. A char is a number, a text a list of them. The sizes and the line numbers of a
-- stream do not reach the bounds of an int; where the source casts to an int the wrap is written
-- out. A step that C++ leaves undefined is `none`.
--
-- Bounds and fuel. The loop over the stream is by recursion on what is not read yet. The
-- substitution of a plain text moves on by a char with each round, so the size of the buffer
-- bounds the rounds; out of fuel it is `none`. The loops of goto_line move by one line with each
-- round, so the distance to the line bounds the rounds. The loop of hexmode::lines takes as many
-- rounds as the text has chars, and one more; with no bytes on a line it does not end, which is
-- `none`. The count of lines reads at least a char with each round but the last. The rounds of
-- find are an argument: forward, one more than the stream has chars is enough. The loop over a
-- template reads a char at least with each round, so the length of the file bounds the rounds. The
-- matches of a global command are an argument: 51 are enough where the guard of the code applies.
-- The lines of its inverse come closer with each round, so their distance bounds the rounds. The
-- commands of vi call each other, and text in insert mode is expanded again; each nested call
-- takes one of the fuel, and out of fuel it is `none`. Where a register refers to itself no fuel
-- is enough. The rounds of replace_all read the text behind the last match. The rounds of a
-- substitute are at most one more than the chars of its target.
--
-- Parameters. A regular expression is a function from pattern, line and replacement to the new
-- line, or nothing where it does not match. The hex code of a byte (boost::algorithm::hex) is a
-- function. What a component answers is a record. So are the tokenizer and the trimming of boost,
-- the document of pugixml, and the command that an ex component runs: a macro is played back with
-- any command. The editor component, the frame, the tags and the address ranges that vi calls are
-- the record Stc of Vi/Component, and the component of the shell is the record Doc of Shell.
--
-- Not modelled: showing lines in the component and the trace messages, as they only show; the
-- regular expressions that split an ex command; the handlers of ex commands; auto_complete, links
-- and the indentation of src/stc, which are left for later; and all that drives the toolkit
-- (dialogs, frames, list views) or third-party code.
pub mod Address
pub mod Completion
pub mod Core
pub mod Ex
pub mod ExCommand
pub mod ExStream
pub mod FileSearch
pub mod HexMode
pub mod Macros
pub mod Prelude
pub mod Shell
pub mod Sort
pub mod Substitute
pub mod Vi
pub mod ViMode
