-- ===== src/Lib.antt =====
-- A model of three programs, and of one to try the first with. The first is the Windows client of
-- the cross-device clipboard (data_sharing/windows/CrossShareWindowsClient/windows_clipboard, W
-- below): its byte buffer, the messages it exchanges with the server over a named pipe, the slot
-- that receives them, and what its window does with them. The second is the HTTP download in parts
-- (http_multi_download). The third is the library behind the Windows clipboard
-- (data_sharing/clipboard, K below), which hands a file or an image that another device copied to
-- the program that pastes it.
--
-- How the parts interact. The pipe's `readyRead` hands each arrival to
-- `ProcessMessage::onRecvServerData`, which appends it to a `Buffer` and then takes messages from
-- the front: `g_getCodeFromByteArray` looks at the header, the message's `fromByteArray` parses a
-- copy of the bytes in a second buffer, and on success `retrieve` drops the message's bytes and
-- the message is dispatched. What the client sends is made by `toByteArray` in two further
-- buffers. The main window takes what is dispatched: a status message changes the list of clients,
-- a file request is answered, a progress message moves the bar of a client's widget. A widget
-- offers files to its client. In the clipboard library, `SetupDstPasteFile` makes a data object, from
-- which the program that pastes gets a stream; `DataTransfer` goes through the object to the
-- stream's `WriteFile`, while the program calls `Read`.
--
-- Which file models which code:
--   Base and its children: if-then-else, lists, the result of code that can fail, words of n bytes.
--   Memory: std::vector<char>, memcpy, std::search and memchr on a list of bytes.
--   Buffer: the class `Buffer` of W/common/buffer.h and buffer.cpp; a function keeps the method's name
--     in this library's spelling (`retrieveAsByteArray` is `retrieve_as_byte_array`). Pointers are
--     indices. Buffer/Numbers has the operations on uint64_t, uint32_t and uint16_t. The other children
--     prove: Regions what a buffer holds and its invariant, Room, Append, Retrieve, Edit and
--     Numbers/RoundTrip the operations, Fresh and Chain what the messages need of them.
--   Message: W/common/global_def.h and global_def.cpp. Frame has the header, which the parsers share,
--     Fields and File the stretches of content that several messages share, and ClientStatus,
--     FileRequest, FileResponse, Progress, ConnRequest and ConnResponse a message each, with
--     `to_byte_array` and `from_byte_array`. Qt has what is called of Qt, and CommonUtils::toUtf16LE
--     and toUtf8 of W/common/common_utils.cpp. Serialise, Parse, Content and Body prove.
--   Process: `ProcessMessage::onRecvServerData` of W/common/process_message.cpp, and in `receive_all`
--     the arrivals of `NamedPipeClient::onReadyRead`. Its children prove.
--   ClientList: `GlobalData::m_clientVec` under `MainWindow::onDispatchMessage` and
--     `DeviceInfo::onOpenFile` (W/src/mainwindow.cpp, device_info.cpp).
--   FileName: `CommonUtils::getFileNameByPath`.
--   Window: the slots of the main window and of a device's widget. A slot returns the global data and
--     the signals it emits; what the user answers, the file's size and the time are arguments.
--   Download: http_multi_download, a program of its own: `DownLoadFactory::MakeTask`
--     (src/DownLoadFactory.cpp), `write_data` and `CurlHttpTask::Run` (src/CurlHttpTask.cpp), and
--     `ThreadPool::ThreadFunc` (src/ThreadPool.cpp) where one thread takes all the tasks, as in a pool
--     on a machine with more processors than threads. Ranges, Writes and Whole prove.
--   Deque: the class `KDeque` of http_multi_download/common/kdeque.hpp. Deque/Order proves.
--   Pool: the class `ThreadPool` of http_multi_download/src/ThreadPool.cpp with several threads. A
--     schedule names the thread that takes each turn, and a turn is a locked region. Its children
--     prove: Accounts where the tasks are, Parts and its children what the threads have written, Whole
--     and Ending what they leave and when, Stopping and its children the same with transfers that
--     fail, where Orderly is the invariant of a pool that stops.
--   Factory: `main` of http_multi_download/main.cpp with `DownLoadFactory::init`, `PushData`,
--     `JoinParser` and the destructor (src/DownLoadFactory.cpp), from the arguments to the file that is
--     left. Tasks proves what the queue gets, Downloads and Faults how main ends.
--   Paste: K/MSPaste. A thread writes what arrives, and the program that pastes waits for it:
--     Transfer has their calls (`MSITransData`), Stream the class `MSStream`, and Image the class
--     `MSImgHandler`, with the methods' names. Stream/Received and Image/Waiting have the
--     invariants, Stream/Reading, Stream/Delivery, Stream/Faults and Image/Filled prove.
--     Stream/Races has Read in steps, between which the other thread's calls come; Uninterrupted,
--     Placed and Interrupted prove. A mapping and global memory are lists of bytes, and a loop
--     that waits for a flag is an outcome of the call. Formats and DataObject are the class
--     `MSDataObject`: the requests that it answers, and the streams that it makes and passes data
--     to, which are counted cells of a heap. Formats/Answers, DataObject/Requests,
--     DataObject/Counts and DataObject/Lifetimes prove. FileDrop is `MSFileDrop::SetupDialog`.
--   Clipboard: the calls of K/clipboard.cpp that start a paste and pass on what arrives, and the
--     class `MSPasteImpl` (K/MSPaste/MSPasteImpl.cpp) between them and the data object.
--     Clipboard/Setup, Clipboard/Transfers and Clipboard/Again prove. Listener is `WndProc`,
--     `GetFileSizeW` and `GetBitmapData` of the same file, and Monitor `ClipboardMonitorThread`
--     with `StartClipboardMonitor` and `StopClipboardMonitor`; Listener/Copies, Listener/Large,
--     Monitor/Lives and Monitor/Failures prove.
--   TestServer: the server that the client is tried with (W/test-server/mainwindow.cpp),
--     `onRecvClientData` and `sendProgressData`. Answers, Progress and Transfers prove.
--   Tests: runs on concrete inputs.
--
-- State and effects. A call returns `Result`: a value, or a fault: a failed assertion, undefined
-- behaviour, a length that a container refuses, or an exception that nothing catches. `Build` says
-- whether Q_ASSERT checks: the release build defines QT_NO_DEBUG, and an assertion then has no
-- effect. Unless a theorem names a build it holds of both. An int product that overflows is
-- undefined behaviour. A method that changes the buffer returns the new buffer.
--
-- Parameters. `Qt` stands for the UTF-8 conversions of QString, and for QHostAddress; its laws are
-- Qt's documented behaviour: UTF-8 and back is the identity on well-formed text, ASCII is itself,
-- and an IPv4 address written as text reads back. `Host` stands for the arithmetic on double in
-- the progress, with what IEEE 754 gives: a quotient of a smaller by a larger number is at most 1,
-- and the cast of a quotient by zero is undefined; and for the JSON text of the log, which may
-- throw; `Log` is the same text for the test server. `Pace` stands for the product on double with
-- which the test server reports. `Registered` stands for the numbers that Windows gives to two
-- registered formats, which differ and lie from 0xC000 on; what wcstombs makes of a name is an
-- argument without laws, as is how many references OLE takes to a data object. ThreadPool uses its
-- mutex and its condition before it initializes them: `raw` says whether their memory happens to
-- be as if they were initialized, and where it is not, each use is undefined.
--
-- Bounds. size_t has 64 bits and wraps; a vector has at most 2 ^ 63 - 1 bytes; a QByteArray has
-- fewer than 2 ^ 31 bytes, and making a longer one is a fault in the model, since the cast to int
-- is then no length. uint32_t content lengths wrap. `rounds` bounds the turns of the receiving
-- loop; a loop that has not ended by then returns `none`, and one round more than the messages
-- that an arrival completes is enough. A schedule of threads is a list of any length, and a thread
-- that has ended stands still; where threads are to end, rounds in which each has a turn follow it,
-- as many as the threads can have use for.
--
-- Not modelled: the log's lines, the text and set-up of dialogs and widgets, the wrapping of
-- messages in shared pointers and QVariant, the thread that the slot runs on, the vector's
-- capacity, the progress window and its message loop (K/MSPaste/MSProgressBar.cpp), the message
-- loop of a paste, the pipe's controller, whose class is not in the repository, the loads and stores
-- inside WriteFile, what libcurl does (the bytes that it hands over are arguments; fwrite writes all
-- it is given), the layout of widgets, and the value of fields before their first assignment (0 and
-- empty stand for it, and every field is set before a message is dispatched).
pub mod Base
pub mod Memory
pub mod Buffer
pub mod Message
pub mod Process
pub mod ClientList
pub mod FileName
pub mod Window
pub mod Deque
pub mod Download
pub mod Pool
pub mod Factory
pub mod Paste
pub mod Clipboard
pub mod TestServer
pub mod Tests
