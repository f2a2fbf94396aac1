-- ===== src/Tests.antt =====
-- Runs of the model on concrete inputs.
mod Data
mod OnBuffer
mod OnMessage
mod OnProcess
mod OnWindow
mod OnDownload
mod OnPool
mod OnFactory
mod OnPaste
mod OnClipboard
mod OnMonitor
mod OnTestServer
mod OnDataObject
